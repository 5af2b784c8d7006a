-- ===== src/Api/Ids.antt =====
-- The ids of app/storage.py and app/routers/runs.py: a prefix and a number of at least three digits.
use Prim.Native.Nat.{◌/◌, ◌%◌}
use Prim.Native.Char.{Char, char, code}
use piggyon.Base.{
  ℕ, zero, suc, ◌+◌, ◌*◌, ◌-◌, ◌<◌, ◌≤◌, ◌≡◌, ◌≢◌, refl, sym, ap, ◌∙◌, inl, inr, String, ltb, arith,
  Bool-cases, if◌then◌else◌,
}
use piggyon.Api.{Naming, IsNaming}

-- the character of a digit
abbrev pub digit : ℕ → Char
digit zero = char 48 tt
digit (suc zero) = char 49 tt
digit (suc (suc zero)) = char 50 tt
digit (suc (suc (suc zero))) = char 51 tt
digit (suc (suc (suc (suc zero)))) = char 52 tt
digit (suc (suc (suc (suc (suc zero))))) = char 53 tt
digit (suc (suc (suc (suc (suc (suc zero)))))) = char 54 tt
digit (suc (suc (suc (suc (suc (suc (suc zero))))))) = char 55 tt
digit (suc (suc (suc (suc (suc (suc (suc (suc zero)))))))) = char 56 tt
digit _ = char 57 tt

-- The decimal digits of a number, in front of a text; the number and one more are fuel enough.
unfoldable pub digits : ℕ → ℕ → String → String
digits zero n rest = rest
digits (suc fuel) n rest =
    let higher = digits fuel (n / 10) (String.◌∷◌ (digit (n % 10)) rest) in
    if ltb n 10 then String.◌∷◌ (digit n) rest else higher

abbrev zeros : ℕ → String → String
zeros zero s = s
zeros (suc n) s = String.◌∷◌ (digit 0) (zeros n s)

-- what the digits of a text stand for, after a number
abbrev value : ℕ → String → ℕ
value n String.[] = n
value n (String.◌∷◌ c s) = value (n * 10 + (code c - 48)) s

code-digit : (n : ℕ) → n < 10 → code (digit n) ≡ 48 + n
code-digit zero h = refl
code-digit (suc zero) h = refl
code-digit (suc (suc zero)) h = refl
code-digit (suc (suc (suc zero))) h = refl
code-digit (suc (suc (suc (suc zero)))) h = refl
code-digit (suc (suc (suc (suc (suc zero))))) h = refl
code-digit (suc (suc (suc (suc (suc (suc zero)))))) h = refl
code-digit (suc (suc (suc (suc (suc (suc (suc zero))))))) h = refl
code-digit (suc (suc (suc (suc (suc (suc (suc (suc zero)))))))) h = refl
code-digit (suc (suc (suc (suc (suc (suc (suc (suc (suc zero))))))))) h = refl
code-digit (suc (suc (suc (suc (suc (suc (suc (suc (suc (suc n)))))))))) h = omega (arith, h)

value-digit :
    (n d : ℕ) (s : String) → d < 10 → value n (String.◌∷◌ (digit d) s) ≡ value (n * 10 + d) s
value-digit n d s h = ap (λ k. value k s) (omega (arith, code-digit d h))

value-digits : (fuel n : ℕ) (rest : String) → n < fuel → value 0 (digits fuel n rest) ≡ value n rest
unfolding digits
value-digits zero n rest h = absurd (omega (arith, h))
value-digits (suc fuel) n rest h = elim (Bool-cases (ltb n 10)) [
  | inl last ↦
      rw last (value-digit 0 n rest (ground (arith, last)) ∙ ap (λ k. value k rest) (omega arith))
  | inr longer ↦
      let big : 10 ≤ n = ground (arith, longer) in
      rw longer (
        value-digits fuel (n / 10) (String.◌∷◌ (digit (n % 10)) rest) (omega (arith, h, big))
        ∙ value-digit (n / 10) (n % 10) rest (omega arith)
        ∙ ap (λ k. value k rest) (omega arith))
]

value-zeros : (n : ℕ) (s : String) → value 0 (zeros n s) ≡ value 0 s
value-zeros zero s = refl
value-zeros (suc n) s = ap (λ k. value k (zeros n s)) (omega arith) ∙ value-zeros n s

abbrev letters : String → ℕ
letters String.[] = 0
letters (String.◌∷◌ c s) = suc (letters s)

-- `:03d`
unfoldable pub padded : ℕ → String
unfolding digits
padded n = let s = digits (suc n) n String.[] in zeros (3 - letters s) s

-- one text after the other
abbrev joined : String → String → String
joined String.[] s = s
joined (String.◌∷◌ c t) s = String.◌∷◌ c (joined t s)

-- The ids, each made of the number that the store has taken.
abbrev pub naming : Naming
naming = record {
  scenario_id_of = λ n. joined "SCN-" (padded n);
  run_id_of = λ n. joined "RUN-" (padded n);
  alternative_scenario_id_of = λ n. joined "SCN-ALT-" (padded n);
  alternative_run_id_of = λ n. joined "RUN-ALT-" (padded n);
}

value-padded : (n : ℕ) → value 0 (padded n) ≡ n
unfolding padded
value-padded n =
    value-zeros (3 - letters (digits (suc n) n String.[])) (digits (suc n) n String.[])
    ∙ value-digits (suc n) n String.[] (omega arith)

-- the text without its first characters
abbrev dropped : ℕ → String → String
dropped zero s = s
dropped (suc n) String.[] = String.[]
dropped (suc n) (String.◌∷◌ c s) = dropped n s

abbrev first_code : String → ℕ
first_code String.[] = 0
first_code (String.◌∷◌ c s) = code c

first_code-digits : (fuel n : ℕ) (rest : String) → n < fuel → first_code (digits fuel n rest) ≤ 57
unfolding digits
first_code-digits zero n rest h = absurd (omega (arith, h))
first_code-digits (suc fuel) n rest h = elim (Bool-cases (ltb n 10)) [
  | inl last ↦
      let small : n < 10 = ground (arith, last) in
      rw last (omega (arith, code-digit n small, small))
  | inr longer ↦
      let big : 10 ≤ n = ground (arith, longer) in
      rw longer
        (first_code-digits fuel (n / 10) (String.◌∷◌ (digit (n % 10)) rest) (omega (arith, h, big)))
]

first_code-zeros : (n : ℕ) (s : String) → first_code s ≤ 57 → first_code (zeros n s) ≤ 57
first_code-zeros zero s h = h
first_code-zeros (suc n) s h = omega arith

first_code-padded : (n : ℕ) → first_code (padded n) ≤ 57
unfolding padded
first_code-padded n =
    first_code-zeros (3 - letters (digits (suc n) n String.[])) (digits (suc n) n String.[])
      (first_code-digits (suc n) n String.[] (omega arith))

padded_inj : (i j : ℕ) → padded i ≡ padded j → i ≡ j
padded_inj i j e = sym (value-padded i) ∙ ap (value 0) e ∙ value-padded j

letter_apart : (n : ℕ) → first_code (padded n) ≢ 65
letter_apart n e = omega (arith, first_code-padded n, e)

-- Different runs have different ids.
pub naming-IsNaming : IsNaming naming
naming-IsNaming = record {
  runs_apart = λ i j e. padded_inj i j (ap (dropped 4) e);
  alternatives_apart = λ i j e. padded_inj i j (ap (dropped 8) e);
  kinds_apart = λ i j e. letter_apart i (ap (λ s. first_code (dropped 4 s)) e);
}
