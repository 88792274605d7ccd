-- ===== src/DeviceFlow/Code.antt =====
-- The codes that a user transcribes (coordinator/internal/server/device.go): `newUserCode`, and the normal form under
-- which they are stored and looked up.
use Prim.Native.Char.{code}
use Prim.Native.String.append
use Prim.Native.String.{[], ◌∷◌, ◌++◌, len, slice}
use text.Mathlib.TextPositions.{len-append}
use text.Mathlib.TextEquality.{eq_iff}
use text.Mathlib.Text.{◌==◌ as same_text}
use idlegrid.Prelude.{
  ℕ, zero, suc, ◌+◌, ◌<◌, ◌%◌, ◌≡◌, refl, sym, ap, ◌∙◌, arith, inl, inr, Bool, true, ◌&&◌, ◌||◌,
  Bool-cases, ◌==◌, String, if◌then◌else◌, ℕ_discrete,
}

-- `userCodeAlphabet`, 31 characters of one byte.
abbrev pub user_code_alphabet : String
user_code_alphabet = "ABCDEFGHJKMNPQRSTUVWXYZ23456789"

-- `userCodeAlphabet[i]`, as a text.
unfoldable pub letter : ℕ → String
letter i = slice user_code_alphabet i (i + 1)

-- The characters for `n` random bytes from the k-th on.
unfoldable pub letters : (ℕ → ℕ) → ℕ → ℕ → String
unfolding letter
letters b k zero = ""
letters b k (suc n) = letter (b k % len user_code_alphabet) ++ letters b (suc k) n

-- `newUserCode`, of 8 random bytes.
unfoldable pub new_user_code : (ℕ → ℕ) → String
unfolding letters
new_user_code b = letters b 0 4 ++ ("-" ++ letters b 4 4)

-- Removes the characters whose number passes the test.
unfoldable pub strip : (ℕ → Bool) → String → String
strip drops [] = []
strip drops (c ∷ s) = if drops (code c) then strip drops s else c ∷ strip drops s

-- '-', and '-' or ' '.
abbrev pub is_dash : ℕ → Bool
is_dash n = n == 45

abbrev pub is_dash_or_space : ℕ → Bool
is_dash_or_space n = n == 45 || n == 32

-- `strings.ReplaceAll(userCode, "-", "")`.
abbrev pub stored_code : String → String
stored_code s = strip is_dash s

-- `strings.NewReplacer("-", "", " ", "").Replace(…)`, before `ToUpper`.
abbrev pub stripped_code : String → String
stripped_code s = strip is_dash_or_space s

module _ (drops : ℕ → Bool) where
  strip-append : (s t : String) → strip drops (s ++ t) ≡ strip drops s ++ strip drops t
  unfolding strip
  strip-append [] t = ap (strip drops) (append.nil t) ∙ sym (append.nil (strip drops t))
  strip-append (c ∷ s) t =
      ap (strip drops) (append.cons c s t) ∙ elim (Bool-cases (drops (code c))) [
        | inl e ↦ rw e (strip-append s t)
        | inr e ↦ rw e (
            ap (λ u. c ∷ u) (strip-append s t)
            ∙ sym (append.cons c (strip drops s) (strip drops t)))
      ]

  -- The test on each letter of the alphabet below n: it stays, and has one byte.
  abbrev letter_stays : ℕ → Bool
  letter_stays i = same_text (strip drops (letter i)) (letter i) && (len (letter i) == 1)

  letters_stay : ℕ → Bool
  letters_stay zero = true
  letters_stay (suc n) = letter_stays n && letters_stay n

  letters_stay_below : (n i : ℕ) → i < n → letters_stay n ≡ true → letter_stays i ≡ true
  unfolding letters_stay
  letters_stay_below zero i below h = absurd (omega arith)
  letters_stay_below (suc n) i below h = elim (ℕ_discrete i n) [
    | yes e ↦ rw e (ground (arith, h))
    | no e ↦ letters_stay_below n i (omega arith) (ground (arith, h))
  ]

  module _ (kept : letters_stay (len user_code_alphabet) ≡ true) where
    strip-letters :
        (b : ℕ → ℕ) (k n : ℕ)
        → (strip drops (letters b k n) ≡ letters b k n) × (len (letters b k n) ≡ n)
    unfolding letters strip
    strip-letters b k zero = (refl, refl)
    strip-letters b k (suc n) =
        let i = b k % len user_code_alphabet in
        let ok = letters_stay_below (len user_code_alphabet) i (omega arith) kept in
        let one : (len (letter i) == 1) ≡ true = ground (arith, ok) in
        let same : strip drops (letter i) ≡ letter i = (eq_iff _ _).0 (ground (arith, ok)) in
        let rest = strip-letters b (suc k) n in
        (
          strip-append (letter i) (letters b (suc k) n) ∙ rw (same, rest.0) refl,
          len-append (letter i) (letters b (suc k) n) ∙ rw rest.1 (ground (arith, one)),
        )

    -- The code without its dash.
    abbrev plain : (ℕ → ℕ) → String
    plain b = letters b 0 4 ++ letters b 4 4

    strip-new_user_code :
        (b : ℕ → ℕ) → strip drops "-" ≡ "" → strip drops (new_user_code b) ≡ plain b
    unfolding new_user_code
    strip-new_user_code b dash =
        strip-append (letters b 0 4) ("-" ++ letters b 4 4)
        ∙ rw (strip-append "-" (letters b 4 4)) (
            rw ((strip-letters b 0 4).0, (strip-letters b 4 4).0, dash, append.nil (letters b 4 4))
              refl)

    strip-plain : (b : ℕ → ℕ) → strip drops (plain b) ≡ plain b
    strip-plain b =
        strip-append (letters b 0 4) (letters b 4 4)
        ∙ rw ((strip-letters b 0 4).0, (strip-letters b 4 4).0) refl

    len-plain : (b : ℕ → ℕ) → len (plain b) ≡ 8
    len-plain b =
        len-append (letters b 0 4) (letters b 4 4)
        ∙ rw ((strip-letters b 0 4).1, (strip-letters b 4 4).1) refl

dash_stays : letters_stay is_dash (len user_code_alphabet) ≡ true
unfolding letters_stay strip letter
dash_stays = refl

space_stays : letters_stay is_dash_or_space (len user_code_alphabet) ≡ true
unfolding letters_stay strip letter
space_stays = refl

-- Whatever the random bytes are, a user who types the code as it is shown, or without its dash, types what is stored,
-- once dashes and spaces are removed; it has 8 bytes.
pub stored_code-new_user_code :
    (b : ℕ → ℕ)
    → (stripped_code (new_user_code b) ≡ stored_code (new_user_code b))
      × (stripped_code (stored_code (new_user_code b)) ≡ stored_code (new_user_code b))
      × (len (stored_code (new_user_code b)) ≡ 8)
unfolding strip
stored_code-new_user_code b =
    let stored = strip-new_user_code is_dash dash_stays b refl in
    let typed = strip-new_user_code is_dash_or_space space_stays b refl in
    rw (stored, typed)
      (refl, strip-plain is_dash_or_space space_stays b, len-plain is_dash dash_stays b)
