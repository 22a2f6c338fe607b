-- ===== src/Connect/Config/Escape.antt =====
-- Percent-encoded values are read back, whatever bytes the encoder leaves as they are.
use adbc_driver_spark.Base.{
  ℕ, ◌+◌, ◌-◌, ◌/◌, ◌%◌, ◌<◌, Bool, false, ◌≡◌, ◌≢◌, refl, ap, some, [], ◌∷◌, inl, inr, arith, ltb,
  if◌then◌else◌, All, Bool-cases,
}
use adbc_driver_spark.Base.Text.{Text}
use adbc_driver_spark.Connect.Config.{hex_value, cons?, hex_pair, path_unescape}

abbrev pub hex_digit : ℕ → ℕ
hex_digit d = if ltb d 10 then b'0' + d else b'A' + (d - 10)

-- An encoder that writes the bytes of which `bare` holds as they are, and the others as "%XX".
unfoldable pub percent_encode : (ℕ → Bool) → Text → Text
percent_encode bare [] = []
percent_encode bare (c ∷ s) =
    let rest = percent_encode bare s in
    if bare c then c ∷ rest else b'%' ∷ hex_digit (c / 16) ∷ hex_digit (c % 16) ∷ rest

hex_value-hex_digit : (d : ℕ) → d < 16 → hex_value (hex_digit d) ≡ some d
unfolding hex_value
hex_value-hex_digit d h = ground arith

path_unescape_bare :
    (c : ℕ) (s : Text) → c ≢ b'%' → path_unescape (c ∷ s) ≡ cons? (some c) (path_unescape s)
unfolding path_unescape
path_unescape_bare c [] n = ground arith
path_unescape_bare c (a ∷ []) n = ground arith
path_unescape_bare c (a ∷ b ∷ s) n = ground arith

path_unescape_coded :
    (a b : ℕ) (s : Text)
    → path_unescape (b'%' ∷ a ∷ b ∷ s)
      ≡ cons? (hex_pair (hex_value a) (hex_value b)) (path_unescape s)
unfolding path_unescape
path_unescape_coded a b s = refl

hex_pair-hex_digit :
    (c : ℕ)
    → c < 256
    → hex_pair (hex_value (hex_digit (c / 16))) (hex_value (hex_digit (c % 16))) ≡ some c
hex_pair-hex_digit c h =
    rw (hex_value-hex_digit (c / 16) (omega arith), hex_value-hex_digit (c % 16) (omega arith))
      (ap some (omega arith))

abbrev pub IsBytes : Text → Type 0
IsBytes s = All (λ c. c < 256) s

-- Any bytes, percent-encoded by an encoder that never leaves '%' bare, are read back unchanged; in
-- particular '+' stays '+'.
pub path_unescape-percent_encode :
    (bare : ℕ → Bool) (s : Text)
    → bare b'%' ≡ false
    → IsBytes s
    → path_unescape (percent_encode bare s) ≡ some s
unfolding percent_encode
path_unescape-percent_encode bare [] h b = unfold path_unescape in refl
path_unescape-percent_encode bare (c ∷ s) h b =
    let ih = path_unescape-percent_encode bare s h b.1 in
    elim (Bool-cases (bare c)) [
      | inl left ↦ rw left (rw (path_unescape_bare c (percent_encode bare s) (λ e. cc)) (rw ih))
      | inr coded ↦ rw coded (
          rw (path_unescape_coded (hex_digit (c / 16)) (hex_digit (c % 16)) (percent_encode bare s))
            (rw (hex_pair-hex_digit c b.0, ih)))
    ]

hex_digit-ne : (d : ℕ) → d < 16 → hex_digit d ≢ b';'
hex_digit-ne d h = ground arith

-- An encoded value has no ';' if the encoder does not leave it bare: it stays one parameter.
pub percent_encode-avoids :
    (bare : ℕ → Bool) (s : Text)
    → bare b';' ≡ false
    → IsBytes s
    → All (λ c. c ≢ b';') (percent_encode bare s)
unfolding percent_encode
percent_encode-avoids bare [] h b = tt
percent_encode-avoids bare (c ∷ s) h b =
    let ih = percent_encode-avoids bare s h b.1 in
    elim (Bool-cases (bare c)) [
      | inl left ↦ rw left ((λ e. cc), ih)
      | inr coded ↦ rw coded (
        omega arith,
        (hex_digit-ne (c / 16) (omega arith), (hex_digit-ne (c % 16) (omega arith), ih)),
      )
    ]
