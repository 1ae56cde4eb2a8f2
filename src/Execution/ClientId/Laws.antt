-- ===== src/Execution/ClientId/Laws.antt =====
-- Reading back the counter of a client order id.
use perpbot.Base.{
  ℕ, zero, suc, ◌+◌, ◌-◌, ◌*◌, ◌/◌, ◌%◌, ◌≤◌, ◌≡◌, refl, true, false, [], ◌∷◌, ◌++◌, ltb, ◌==◌,
  if◌then◌else◌, some, arith, Bool-cases, inl, inr, All, All-append, sym, ap, ◌∙◌, ◌≢◌,
}
use perpbot.Execution.Types.{Text}
use perpbot.Execution.ClientId.{
  dash, show_fuel, show, cid, tail_from, all_digits, read_from, read_text, cid_number,
}
use mathlib.Core.Option.{some-injective}
use mathlib.Core.List.{append_assoc, append-nil}

abbrev IsDigit : ℕ → Type 0
IsDigit c = (b'0' ≤ c) × (c ≤ b'9')

read_from-append : (acc : ℕ) (s t : Text) → read_from acc (s ++ t) ≡ read_from (read_from acc s) t
read_from-append acc [] t = refl
read_from-append acc (c ∷ s) t = read_from-append (acc * 10 + (c - b'0')) s t

show_fuel-digits : (f n : ℕ) → All IsDigit (show_fuel f n)
unfolding show_fuel
show_fuel-digits zero n = ((omega arith, omega arith), tt)
show_fuel-digits (suc f) n = elim (Bool-cases (ltb n 10)) [
  | inl e ↦ rw e ((omega arith, ground arith), tt)
  | inr e ↦ rw e (
      All-append IsDigit (show_fuel f (n / 10)) _ (show_fuel-digits f (n / 10))
        ((omega arith, omega arith), tt))
]

read-show_fuel : (f n : ℕ) → n ≤ f → read_from 0 (show_fuel f n) ≡ n
unfolding show_fuel
read-show_fuel zero n h = omega arith
read-show_fuel (suc f) n h = elim (Bool-cases (ltb n 10)) [
  | inl e ↦ rw e (omega arith)
  | inr e ↦
      rw (e, read_from-append 0 (show_fuel f (n / 10)), read-show_fuel f (n / 10) (ground arith))
        (omega arith)
]

tail_from-dash : (acc s t : Text) → tail_from acc (s ++ (dash ∷ t)) ≡ tail_from [] t
unfolding tail_from
tail_from-dash acc [] t = refl
tail_from-dash acc (c ∷ s) t = tail_from-dash (if c == dash then [] else acc ++ (c ∷ [])) s t

tail_from_digits : (acc t : Text) → All IsDigit t → tail_from acc t ≡ acc ++ t
unfolding tail_from
tail_from_digits acc [] h = sym (append-nil acc)
tail_from_digits acc (c ∷ t) (d, ds) =
    let plain : (c == dash) ≡ false = ground arith in
    rw (plain, tail_from_digits (acc ++ (c ∷ [])) t ds) (append_assoc acc (c ∷ []) t)

all_digits_lem : (t : Text) → All IsDigit t → all_digits t ≡ true
all_digits_lem [] h = refl
all_digits_lem (c ∷ t) h = ground (arith, all_digits_lem t h.1)

read_text_digits : (t : Text) → All IsDigit t → t ≢ [] → read_text t ≡ some (read_from 0 t)
read_text_digits [] h ne = absurd (ne refl)
read_text_digits (c ∷ t) h ne = rw (all_digits_lem (c ∷ t) h)

show_fuel-ne-nil : (f n : ℕ) → show_fuel f n ≢ []
unfolding show_fuel
show_fuel-ne-nil zero n = λ h. cc
show_fuel-ne-nil (suc f) n = ground (arith, append-ne-nil (show_fuel f (n / 10)) (b'0' + n % 10))
  where
    append-ne-nil : (s : Text) (c : ℕ) → (s ++ (c ∷ [])) ≢ []
    append-ne-nil [] c = λ h. cc
    append-ne-nil (a ∷ s) c = λ h. cc

-- The counter at the end of a client order id of ours is read back, whatever the run id and the
-- instrument id hold.
pub cid_number-cid : (run_id : Text) (i n : ℕ) → cid_number (cid run_id i n) ≡ some n
unfolding cid_number cid show
cid_number-cid run_id i n = rw (
  tail_from-dash [] run_id (show_fuel i i ++ (dash ∷ show_fuel n n)),
  tail_from-dash [] (show_fuel i i) (show_fuel n n),
  tail_from_digits [] (show_fuel n n) (show_fuel-digits n n),
  read_text_digits (show_fuel n n) (show_fuel-digits n n) (show_fuel-ne-nil n n),
  read-show_fuel n n (omega arith),
)

-- So two ids of one run with different counters differ.
pub cid-injective : (r s : Text) (i j m n : ℕ) → cid r i m ≡ cid s j n → m ≡ n
cid-injective r s i j m n h =
    some-injective _ _ (sym (cid_number-cid r i m) ∙ ap cid_number h ∙ cid_number-cid s j n)
