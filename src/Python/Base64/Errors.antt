-- ===== src/Python/Base64/Errors.antt =====
-- The only exception of the decoder is `ValueError`.
use gekko.Base.{
  ℕ, suc, String, List, [], ◌∷◌, ◌==◌, ◌≡◌, refl, arith, inl, inr, Bool-cases, Option-cases,
}
use gekko.Python.Errors.{Result, ok, raise, value_error}
use gekko.Python.Text.{nat_eq, codes}
use gekko.Python.Base64.{decode, scan, sextet, Pending, zero_read, next, output}

abbrev pub OnlyValueError {ℓ} : {A : Type ℓ} → Result A → Type 0
OnlyValueError (ok a) = Unit
OnlyValueError (raise e) = e ≡ value_error

output-OnlyValueError :
    (p : Pending) (v : ℕ) (r : Result (List ℕ)) → OnlyValueError r → OnlyValueError (output p v r)
output-OnlyValueError zero_read v r h = h
output-OnlyValueError p v (ok bs) h = ground arith
output-OnlyValueError p v (raise e) h = ground arith

scan-OnlyValueError : (p : Pending) (pads : ℕ) (cs : List ℕ) → OnlyValueError (scan p pads cs)
unfolding scan
scan-OnlyValueError zero_read pads [] = tt
scan-OnlyValueError p pads [] = refl
scan-OnlyValueError p pads (c ∷ cs) = elim (Bool-cases (c == b'=')) [
  | inl pad ↦ ground (arith, scan-OnlyValueError p (suc pads) cs)
  | inr other ↦ elim (Option-cases (sextet c)) [
    | inl skipped ↦ ground (arith, scan-OnlyValueError p pads cs)
    | inr (v, read) ↦ ground (
      arith,
      output-OnlyValueError p v (scan (next p v) 0 cs) (scan-OnlyValueError (next p v) 0 cs),
    )
  ]
]

pub decode-OnlyValueError : (s : String) → OnlyValueError (decode s)
unfolding decode
decode-OnlyValueError s = ground (arith, scan-OnlyValueError zero_read 0 (codes s))
