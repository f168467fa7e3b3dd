-- ===== src/Samples/Scan.antt =====
-- A printer and a scanner for the tests: a number is written as that many marks, and a text is cut
-- at its colons.
use Prim.Native.String.{String, ◌++◌}
use Prim.Native.Char.{Char, code}
use text.Mathlib.TextLemmas.{append_assoc, nil-append, cons-append}
use pint.Common.{
  ℕ, zero, suc, ◌≡◌, refl, ap, Bool, true, false, Bool-cases, inl, inr, List, [], ◌∷◌, some, ◌==◌,
  if◌then◌else◌,
}
use pint.Common.Int.{pos, pos_part}
use pint.Os.{Os}
use pint.CommTypes.Types.{
  Message, comm_error, way_req, way_res, mov_cmd, range_pose_data, map_update, comm_ack, msg_buffer,
  message_name,
}
use pint.CommTypes.Serial.{Scanf, ReadsBack}
use pint.Samples

abbrev marks : ℕ → String
marks zero = String.[]
marks (suc n) = String.◌∷◌ "1" (marks n)

abbrev field : String → String
field String.[] = String.[]
field (String.◌∷◌ c s) = if code c == b':' then String.[] else String.◌∷◌ c (field s)

abbrev after_field : String → String
after_field String.[] = String.[]
after_field (String.◌∷◌ c s) = if code c == b':' then s else after_field s

abbrev size : String → ℕ
size String.[] = 0
size (String.◌∷◌ c s) = suc (size s)

abbrev numbers : ℕ → String → List ℕ
numbers zero text = []
numbers (suc n) text = size (field text) ∷ numbers n (after_field text)

abbrev pub printing : Os
printing = record Samples.os { decimal = λ z. marks (pos_part z) }

abbrev pub scanf : Scanf
scanf = record {
  scan = λ n text. (some (field text), numbers n (after_field text));
  atoi = λ text. pos (size text);
}

size-marks : (n : ℕ) → size (marks n) ≡ n
size-marks zero = refl
size-marks (suc n) = ap suc (size-marks n)

abbrev no_colon : String → Bool
no_colon String.[] = true
no_colon (String.◌∷◌ c s) = if code c == b':' then false else no_colon s

no_colon-marks : (n : ℕ) → no_colon (marks n) ≡ true
no_colon-marks zero = refl
no_colon-marks (suc n) = no_colon-marks n

no_colon-message_name : (m : Message) → no_colon (message_name m) ≡ true
unfolding message_name
no_colon-message_name comm_error = refl
no_colon-message_name way_req = refl
no_colon-message_name way_res = refl
no_colon-message_name mov_cmd = refl
no_colon-message_name range_pose_data = refl
no_colon-message_name map_update = refl
no_colon-message_name comm_ack = refl
no_colon-message_name msg_buffer = refl

cut : (c : Char) (s : String) → (code c == b':') ≡ true → no_colon (String.◌∷◌ c s) ≡ true → ⊥
cut c s e h = let k : false ≡ true = rw e at h in cc

field_whole : (a : String) → no_colon a ≡ true → field a ≡ a
field_whole String.[] h = refl
field_whole (String.◌∷◌ c s) h = elim (Bool-cases (code c == b':')) [
  | inl e ↦ absurd (cut c s e h)
  | inr e ↦ rw e (ap (String.◌∷◌ c) (field_whole s (rw e at h)))
]

cut_first :
    (a t : String)
    → no_colon a ≡ true
    → (field (a ++ (":" ++ t)) ≡ a) × (after_field (a ++ (":" ++ t)) ≡ t)
cut_first String.[] t h =
    rw (nil-append (":" ++ t), cons-append ":" String.[] t, nil-append t) (refl, refl)
cut_first (String.◌∷◌ c s) t h = elim (Bool-cases (code c == b':')) [
  | inl e ↦ absurd (cut c s e h)
  | inr e ↦
      let (f, g) = cut_first s t (rw e at h) in
      rw (cons-append c s (":" ++ t), e) (ap (String.◌∷◌ c) f, g)
]

scan_two :
    (name : String) (a b : ℕ)
    → no_colon name ≡ true
    → scanf.scan 2 (name ++ (":" ++ (marks a ++ (":" ++ marks b)))) ≡ (some name, a ∷ b ∷ [])
scan_two name a b h =
    let (f, g) = cut_first name (marks a ++ (":" ++ marks b)) h in
    let (f', g') = cut_first (marks a) (marks b) (no_colon-marks a) in
    rw (f, g, f', g', field_whole (marks b) (no_colon-marks b), size-marks a, size-marks b) refl

scan_three :
    (name : String) (a b c : ℕ)
    → no_colon name ≡ true
    → scanf.scan 3 ((name ++ (":" ++ (marks a ++ (":" ++ marks b)))) ++ (":" ++ marks c))
      ≡ (some name, a ∷ b ∷ c ∷ [])
scan_three name a b c h =
    let (f, g) = cut_first name (marks a ++ (":" ++ (marks b ++ (":" ++ marks c)))) h in
    let (f', g') = cut_first (marks a) (marks b ++ (":" ++ marks c)) (no_colon-marks a) in
    let (f'', g'') = cut_first (marks b) (marks c) (no_colon-marks b) in
    simp (append_assoc) (
      rw
        (
          f,
          g,
          f',
          g',
          f'',
          g'',
          field_whole (marks c) (no_colon-marks c),
          size-marks a,
          size-marks b,
          size-marks c,
        )
        refl)

pub scanf-ReadsBack : ReadsBack printing scanf
scanf-ReadsBack = record {
  two = λ m a b la lb. scan_two (message_name m) a b (no_colon-message_name m);
  three = λ m a b c la lb lc. scan_three (message_name m) a b c (no_colon-message_name m);
}
