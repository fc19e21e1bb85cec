-- ===== src/Sharing/Token.antt =====
-- Tokens: what is signed, and what is accepted.
use Prim.Native.Char.{Char}
use Prim.Native.String.{◌++◌ as concat}
use text.Mathlib.TextLemmas.{cons-append, nil-append}
use talyvor_docs.Prelude.{
  String, ◌≡◌, refl, ◌∙◌, ap, Bool, true, false, Option, some, arith, ◌==◌, eq_refl, Bool-cases,
  inl, inr,
}
use talyvor_docs.Sharing.{cut, cut_after, is_dot, sign, nonce_of}

-- strings.Contains(s, ".")
abbrev pub has_dot : String → Bool
has_dot s = (cut s).2

dot-append : (sig : String) → concat "." sig ≡ String.◌∷◌ "." sig
dot-append sig = cons-append "." String.[] sig ∙ ap (String.◌∷◌ ".") (nil-append sig)

cut-after :
    (nonce sig : String)
    → has_dot nonce ≡ false
    → cut (concat nonce (concat "." sig)) ≡ (nonce, sig, true)
unfolding cut
cut-after String.[] sig plain = rw (nil-append (concat "." sig), dot-append sig) refl
cut-after (String.◌∷◌ c nonce) sig plain = elim (Bool-cases (is_dot c)) [
  | inl dot ↦ absurd (ground (arith, dot))
  | inr other ↦
      rw (cons-append c nonce (concat "." sig), other)
        (ap (cut_after c) (cut-after nonce sig (ground (arith, other))))
]

module _ (hmac : String → String → String) (encode : String → String)
    (decode : String → Option String) where
  -- A token that the server signed names its nonce. The nonce is not empty and has no dot, and the decoder
  -- reads what the encoder wrote.
  pub nonce_of-sign :
      (key nonce : String)
      → has_dot nonce ≡ false
      → (nonce == "") ≡ false
      → decode (encode (hmac key nonce)) ≡ some (hmac key nonce)
      → nonce_of hmac encode decode (some key) (sign hmac encode decode key nonce) ≡ some nonce
  unfolding nonce_of sign
  nonce_of-sign key nonce plain given decodes =
      rw (cut-after nonce (encode (hmac key nonce)) plain, given, decodes, eq_refl (hmac key nonce))
        refl
