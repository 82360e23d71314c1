-- ===== src/Instance/Roles/Address.antt =====
-- `sanitizeIp`, on the addresses that it is called with.
use dragonfly_operator.Prelude.{String, ◌<>◌, ◌≡◌, refl, ap, ◌∙◌}
use text.Mathlib.TextLemmas.{nil-append, cons-append}
use dragonfly_operator.Text.Trimming.{trim_idem, trim-ends}
use dragonfly_operator.Instance.Roles.{is_bracket, sanitize_ip}

-- The brackets around an address of IPv6 make no difference, and an address that was sanitized once
-- stays as it is.
pub sanitize_ip_lem :
    (ip : String)
    → (sanitize_ip ("[" <> (ip <> "]")) ≡ sanitize_ip ip)
      × (sanitize_ip (sanitize_ip ip) ≡ sanitize_ip ip)
unfolding sanitize_ip
sanitize_ip_lem ip = (
  ap sanitize_ip (bracket (ip <> "]")) ∙ trim-ends is_bracket ip "[" "]" refl refl,
  trim_idem is_bracket ip,
)
  where
    bracket : (t : String) → "[" <> t ≡ String.◌∷◌ "[" t
    bracket t = cons-append "[" String.[] t ∙ ap (String.◌∷◌ "[") (nil-append t)
