-- ===== src/EmployeeService/Auth/Presented.antt =====
-- employee-service/auth.py: which requests `authenticate` lets pass, down to the header, the key of
-- the issuer and the proof.
use Prim.Native.String.{[], ◌∷◌}
use mathlib.Core.Path.{subst}
use text.Mathlib.TextEquality.{Char-path}
use text.Mathlib.TextLemmas.{nil-append, cons-append}
use gekko.Base.{
  ℕ, String, true, false, none, some, ◌≡◌, ◌≢◌, ◌↔◌, ◌⊎◌, inl, inr, refl, sym, ◌∙◌, arith,
  string_eq, code, Char, Bool-cases, ◌==◌, Option-cases,
}
use gekko.Base.Dict.{Dict, lookup}
use gekko.Python.Errors.{ok, Result-cases}
use gekko.Python.Json.{Json, truthy, member_of}
use gekko.Python.Text.{partition, ◌<>◌, nat_eq}
use gekko.EmployeeService.Request.{Request, Libraries, decoded}
use gekko.EmployeeService.Dpop.{bound_to, validate_dpop}
use gekko.EmployeeService.Dpop.Proof.{IsBoundBy, IsProof, validate_dpop-IsProof_iff}
use gekko.EmployeeService.Auth.{AuthContext, audience, credentials, verify, authenticate}
use gekko.EmployeeService.Auth.Laws.{
  Lacks, credentials_of_header, Jwt-cases, IsAuthentic, authenticate-IsAuthentic_iff,
}

-- The token is not bound to a key: `cnf` is missing or empty, or has no `jkt`.
abbrev pub IsUnbound : Dict String Json → Type 0
IsUnbound claims =
    (lookup "cnf" claims ≡ none)
    ⊎ ((cnf : Json) × (lookup "cnf" claims ≡ some cnf)
        × ((truthy cnf ≡ false) ⊎ ((truthy cnf ≡ true) × (member_of "jkt" cnf ≡ ok false))))

module _ (L : Libraries) (ctx : AuthContext) (req : Request) (now : ℕ) where
  -- The header holds a known scheme, a space and a token, which decodes to the claims with the key
  -- that the issuer has for it; a bound token comes with a proof of that key.
  pub record IsPresented (claims : Dict String Json) : Type 0 where
    pub scheme : String
    pub known : (scheme ≡ "Bearer") ⊎ (scheme ≡ "DPoP")
    pub token : String
    pub nonempty : token ≢ ""
    pub sent : req.header "Authorization" ≡ some (scheme <> (" " ∷ token))
    pub key : L.SigningKey
    pub key_found : L.signing_key ctx.jwks_url token ≡ decoded key
    pub verified : L.decode_token token key audience ctx.issuer ≡ decoded claims
    pub possession :
        IsUnbound claims ⊎ ((cnf : Json) × IsBoundBy claims cnf × IsProof L req now token cnf)

space : (c : Char) (s : String) → code c ≡ 32 → c ∷ s ≡ "" <> (" " ∷ s)
space c s same =
    let first : c ≡ " " = Char-path c " " same in (λ i. first i ∷ s) ∙ sym (nil-append (" " ∷ s))

-- What `partition` parts at the space, where something follows it.
partition-parts :
    (h : String)
    → ((partition b' ' h).1 ≡ "") ⊎ (h ≡ (partition b' ' h).0 <> (" " ∷ (partition b' ' h).1))
unfolding partition
partition-parts [] = inl refl
partition-parts (c ∷ s) = elim (Bool-cases (code c == 32)) [
  | inl here ↦ rw here (inr (space c s (ground arith)))
  | inr later ↦ elim (partition-parts s) [
    | inl nothing ↦ rw later (inl nothing)
    | inr parts ↦ rw later (inr ((λ i. c ∷ parts i) ∙ sym (cons-append c (partition b' ' s).0 _)))
  ]
]

credentials-sent :
    (req : Request)
    → (credentials req).1 ≢ ""
    → req.header "Authorization" ≡ some ((credentials req).0 <> (" " ∷ (credentials req).1))
unfolding credentials partition
credentials-sent req full = elim (Option-cases (req.header "Authorization")) [
  | inl absent ↦ absurd (full (rw absent refl))
  | inr (h, given) ↦ elim (partition-parts h) [
    | inl nothing ↦ absurd (full (rw given nothing))
    | inr parts ↦ rw given (λ i. some (parts i))
  ]
]

known-Lacks : (scheme : String) → (scheme ≡ "Bearer") ⊎ (scheme ≡ "DPoP") → Lacks b' ' scheme
known-Lacks scheme (inl same) = subst (Lacks b' ') (sym same) (omega arith)
known-Lacks scheme (inr same) = subst (Lacks b' ') (sym same) (omega arith)

module _ (L : Libraries) (req : Request) (now : ℕ) (token : String) where
  abbrev HasProof : Dict String Json → Type 0
  HasProof claims = (cnf : Json) × IsBoundBy claims cnf × IsProof L req now token cnf

  validate_dpop-cases :
      (claims : Dict String Json)
      → validate_dpop L req now token claims ≡ ok tt
      → IsUnbound claims ⊎ HasProof claims
  unfolding validate_dpop bound_to
  validate_dpop-cases claims h = elim (Option-cases (lookup "cnf" claims)) [
    | inl absent ↦ inl (inl absent)
    | inr (cnf, given) ↦ elim (Bool-cases (truthy cnf)) [
      | inr empty ↦ inl (inr (cnf, given, inl empty))
      | inl full ↦ elim (Result-cases (member_of "jkt" cnf)) [
        | inr (e, failed) ↦ absurd (ground arith)
        | inl (false, without) ↦ inl (inr (cnf, given, inr (full, without)))
        | inl (true, there) ↦
            let bound : IsBoundBy claims cnf = (given, full, there) in
            inr (cnf, bound, (validate_dpop-IsProof_iff L req now token claims cnf bound).0 h)
      ]
    ]
  ]

  validate_dpop_of_cases :
      (claims : Dict String Json)
      → IsUnbound claims ⊎ HasProof claims
      → validate_dpop L req now token claims ≡ ok tt
  unfolding validate_dpop bound_to
  validate_dpop_of_cases claims (inl unbound) = ground arith
  validate_dpop_of_cases claims (inr (cnf, bound, proof)) =
      (validate_dpop-IsProof_iff L req now token claims cnf bound).1 proof

module _ (L : Libraries) (ctx : AuthContext) (req : Request) (now : ℕ) where
  IsAuthentic-IsPresented :
      (claims : Dict String Json)
      → IsAuthentic L ctx req now claims
      → IsPresented L ctx req now claims
  unfolding verify
  IsAuthentic-IsPresented claims a =
      let token = (credentials req).1 in
      elim (Jwt-cases (L.signing_key ctx.jwks_url token)) [
        | inr (message, bad) ↦ absurd (ground (arith, a.verified))
        | inl (key, found) ↦ record {
          scheme = (credentials req).0;
          known = a.scheme;
          token = token;
          nonempty = a.token;
          sent = credentials-sent req a.token;
          key = key;
          key_found = found;
          verified = ground (arith, a.verified);
          possession = validate_dpop-cases L req now token claims a.possession;
        }
      ]

  IsPresented-IsAuthentic :
      (claims : Dict String Json)
      → IsPresented L ctx req now claims
      → IsAuthentic L ctx req now claims
  unfolding verify
  IsPresented-IsAuthentic claims p =
      let read : credentials req ≡ (p.scheme, p.token) =
        credentials_of_header req p.scheme p.token (known-Lacks p.scheme p.known) p.sent in
      let proved = validate_dpop_of_cases L req now p.token claims p.possession in
      record {
        scheme = rw read p.known;
        token = rw read p.nonempty;
        verified = rw (read, p.key_found) p.verified;
        possession = rw read proved;
      }

  -- The authentication returns claims exactly when the `Authorization` header is `Bearer` or `DPoP`,
  -- a space and a token that is not empty, the address of the keys has a key for the token, the
  -- token decodes to these claims with that key, for this service and the issuer, and the claims
  -- bind it to no key, or to one of which the request has a proof.
  pub authenticate-IsPresented_iff :
      (claims : Dict String Json)
      → (authenticate L ctx req now ≡ ok claims) ↔ IsPresented L ctx req now claims
  authenticate-IsPresented_iff claims =
      let (to, from) = authenticate-IsAuthentic_iff L ctx req now claims in
      (λ h. IsAuthentic-IsPresented claims (to h), λ p. from (IsPresented-IsAuthentic claims p))
