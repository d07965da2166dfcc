-- ===== src/Scenario/Web/Laws.antt =====
-- audit/scenario.py: what `rewrite` does to the addresses that Keycloak gives.
use gekko.Base.{String, false, ◌≡◌, ap, ◌∙◌}
use gekko.Python.Text.{◌<>◌, is_infix}
use gekko.Python.Replace.{replace-append, replace_absent}
use gekko.Python.Environ.{Environ}
use gekko.Scenario.Web.{frontend_url, public_url, rewrite}

-- An address of the public origin becomes the same path at the internal one, if the path does not
-- name the public origin again.
pub rewrite-public_url :
    (env : Environ) (path : String)
    → is_infix public_url path ≡ false
    → rewrite env (public_url <> path) ≡ frontend_url env <> path
unfolding rewrite
rewrite-public_url env path h =
    replace-append "h" "ttp://localhost:3000" (frontend_url env) path
    ∙ ap (λ t. frontend_url env <> t) (replace_absent public_url (frontend_url env) path h)

-- An address with no public origin in it stays as it is.
pub rewrite_internal :
    (env : Environ) (url : String) → is_infix public_url url ≡ false → rewrite env url ≡ url
unfolding rewrite
rewrite_internal env url h = replace_absent public_url (frontend_url env) url h
