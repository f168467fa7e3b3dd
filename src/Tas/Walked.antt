-- ===== src/Tas/Walked.antt =====
-- forceMaps of tas_lib/force.c touches all memory that can be read and written, and no other.
use pint.Common.{
  ℕ, suc, ◌+◌, ◌-◌, ◌/◌, ◌%◌, ◌^◌, ◌≤◌, ◌<◌, ◌≡◌, ◌≢◌, refl, ◌⊎◌, inl, inr, ◌&&◌, true, false, List,
  [], ◌∷◌, ◌++◌, some, leb, ◌==◌, if◌then◌else◌, length, arith, map, Bool-cases, Returns,
  Returns-bind,
}
use pint.Common.Int.{pos}
use pint.Tas.Maps.{
  stride, page, field_max, read_until, short_field, touch, touch_fuel, parse_line, parse_lines,
  force_maps,
}
use pint.Tas.Covered.{Hit, Within, touch-Touched}

-- A character that does not occur.
abbrev pub Without : ℕ → List ℕ → Type 0
Without c [] = Unit {0}
Without c (x ∷ xs) = (x ≢ c) × Without c xs

read_until-append :
    (stop : ℕ) (text line : List ℕ)
    → Without stop text
    → read_until stop (text ++ stop ∷ line) ≡ some (text, line)
unfolding read_until
read_until-append stop [] line clean =
    let same : (stop == stop) ≡ true = ground arith in rw same refl
read_until-append stop (c ∷ text) line clean =
    let other : (c == stop) ≡ false = ground (arith, clean.0) in
    rw (other, read_until-append stop text line clean.1) refl

short_field-append :
    (stop : ℕ) (text line : List ℕ)
    → Without stop text
    → length text ≤ field_max
    → short_field stop (text ++ stop ∷ line) ≡ some (text, line)
unfolding short_field
short_field-append stop text line clean short =
    let fits : leb (length text) field_max ≡ true = ground (arith, short) in
    rw (read_until-append stop text line clean) (rw fits refl)

-- A line of /proc/self/maps: the fields of the two addresses, the first two permissions, the rest.
pub record MapLine : Type 0 where
  pub from_text : List ℕ
  pub to_text : List ℕ
  pub read_flag : ℕ
  pub write_flag : ℕ
  pub rest : List ℕ

abbrev pub line_text : MapLine → List ℕ
line_text m = m.from_text ++ b'-' ∷ (m.to_text ++ b' ' ∷ (m.read_flag ∷ m.write_flag ∷ m.rest))

module _ (strtoul : List ℕ → ℕ) where
  -- As the kernel writes it, from the start of a page on, with the memory in the lower half
  -- of the address space.
  pub record IsMapLine (m : MapLine) : Type 0 where
    pub no_dash : Without b'-' m.from_text
    pub no_space : Without b' ' m.to_text
    pub from_fits : length m.from_text ≤ field_max
    pub to_fits : length m.to_text ≤ field_max
    pub aligned : strtoul m.from_text % page ≡ 0
    pub room : strtoul m.to_text + stride ≤ 2 ^ 63

  -- The address belongs to the memory of the line, and that can be read and written.
  pub record Writable (m : MapLine) (x : ℕ) : Type 0 where
    pub readable : m.read_flag ≡ b'r'
    pub writable : m.write_flag ≡ b'w'
    pub from : strtoul m.from_text ≤ x
    pub below : x < strtoul m.to_text

  abbrev pub SomeWritable : List MapLine → ℕ → Type 0
  SomeWritable [] x = ⊥
  SomeWritable (m ∷ ms) x = Writable m x ⊎ SomeWritable ms x

  abbrev pub AllWritable : List MapLine → List ℕ → Type 0
  AllWritable ms [] = Unit {0}
  AllWritable ms (y ∷ ys) = SomeWritable ms y × AllWritable ms ys

  abbrev pub AllLines : List MapLine → Type 0
  AllLines [] = Unit {0}
  AllLines (m ∷ ms) = IsMapLine m × AllLines ms

  -- What is touched is what can be written.
  pub record Walked (ms : List MapLine) (ys : List ℕ) : Type 0 where
    pub all_hit : (x : ℕ) → SomeWritable ms x → Hit x ys
    pub only : AllWritable ms ys

  Within-AllWritable :
      (m : MapLine) (ys : List ℕ)
      → m.read_flag ≡ b'r'
      → m.write_flag ≡ b'w'
      → Within (strtoul m.from_text) (strtoul m.to_text) ys
      → AllWritable (m ∷ []) ys
  Within-AllWritable m [] r w h = tt
  Within-AllWritable m (y ∷ ys) r w h = (
    inl (record { readable = r; writable = w; from = h.0.0; below = h.0.1 }),
    Within-AllWritable m ys r w h.1,
  )

  parse_line-Walked :
      (m : MapLine) → IsMapLine m → Returns (Walked (m ∷ [])) (parse_line strtoul (line_text m))
  unfolding parse_line
  parse_line-Walked m h =
      rw
        (
          short_field-append b'-' m.from_text _ h.no_dash h.from_fits,
          short_field-append b' ' m.to_text _ h.no_space h.to_fits,
        )
        (by_flags (Bool-cases (m.read_flag == b'r' && m.write_flag == b'w')))
    where
      start : ℕ
      start = strtoul m.from_text

      end : ℕ
      end = strtoul m.to_text

      by_flags :
          (((m.read_flag == b'r' && m.write_flag == b'w') ≡ true)
            ⊎ ((m.read_flag == b'r' && m.write_flag == b'w') ≡ false))
          → Returns (Walked (m ∷ [])) (
              if m.read_flag == b'r' && m.write_flag == b'w'
              then touch (touch_fuel start end) start end
              else some [])
      by_flags (inl set) =
          let n = (end - start) / stride + 1 in
          let (l, e, t) =
            touch-Touched n start end (omega (arith, h.aligned)) (omega (arith, h.room))
              (omega arith) in
          let fuel : touch_fuel start end ≡ suc n = omega arith in
          let r : m.read_flag ≡ b'r' = ground (arith, set) in
          let w : m.write_flag ≡ b'w' = ground (arith, set) in
          rw set (
            l,
            rw fuel e,
            record {
              all_hit = λ x k. elim k [
                | inl mine ↦ t.all_hit x mine.from mine.below
                | inr none_left ↦ absurd none_left
              ];
              only = Within-AllWritable m l r w t.within;
            },
          )
      by_flags (inr clear) = rw clear (
        [],
        refl,
        record {
          all_hit = λ x k. elim k [
            | inl mine ↦ ground (arith, clear, mine.readable, mine.writable)
            | inr none_left ↦ absurd none_left
          ];
          only = tt;
        },
      )

  Hit-append : (x : ℕ) (ys zs : List ℕ) → (Hit x ys ⊎ Hit x zs) → Hit x (ys ++ zs)
  Hit-append x [] zs (inl h) = absurd h
  Hit-append x [] zs (inr h) = h
  Hit-append x (y ∷ ys) zs (inl (inl here)) = inl here
  Hit-append x (y ∷ ys) zs (inl (inr h)) = inr (Hit-append x ys zs (inl h))
  Hit-append x (y ∷ ys) zs (inr h) = inr (Hit-append x ys zs (inr h))

  AllWritable-join :
      (m : MapLine) (ms : List MapLine) (ys zs : List ℕ)
      → AllWritable (m ∷ []) ys
      → AllWritable ms zs
      → AllWritable (m ∷ ms) (ys ++ zs)
  AllWritable-join m ms [] [] a b = tt
  AllWritable-join m ms [] (z ∷ zs) a b = (inr b.0, AllWritable-join m ms [] zs tt b.1)
  AllWritable-join m ms (y ∷ ys) zs (inl mine, a) b = (inl mine, AllWritable-join m ms ys zs a b)
  AllWritable-join m ms (y ∷ ys) zs (inr none_left, a) b = absurd none_left

  parse_lines-Walked :
      (ms : List MapLine)
      → AllLines ms
      → Returns (Walked ms) (parse_lines strtoul (map line_text ms))
  unfolding parse_lines
  parse_lines-Walked [] h = ([], refl, record { all_hit = λ x k. k; only = tt })
  parse_lines-Walked (m ∷ ms) h =
      Returns-bind (Walked (m ∷ [])) (Walked (m ∷ ms)) (parse_line strtoul (line_text m)) _
        (parse_line-Walked m h.0)
        (λ ys s.
          Returns-bind (Walked ms) (Walked (m ∷ ms)) (parse_lines strtoul (map line_text ms)) _
            (parse_lines-Walked ms h.1)
            (λ zs t. (
              ys ++ zs,
              refl,
              record {
                all_hit = λ x k. elim k [
                  | inl mine ↦ Hit-append x ys zs (inl (s.all_hit x (inl mine)))
                  | inr other ↦ Hit-append x ys zs (inr (t.all_hit x other))
                ];
                only = AllWritable-join m ms ys zs s.only t.only;
              },
            )))

  -- forceMaps, when /proc/self/maps can be opened and its lines are as the kernel writes them, with
  -- all memory in the lower half of the address space, returns 0, and has touched an address in
  -- the page of each address that can be read and written, and no address that cannot.
  pub force_maps-Walked :
      (ms : List MapLine)
      → AllLines ms
      → Returns (λ r. (r.0 ≡ pos 0) × Walked ms r.1) (force_maps strtoul (some (map line_text ms)))
  unfolding force_maps
  force_maps-Walked ms h =
      let (ys, e, w) = parse_lines-Walked ms h in ((pos 0, ys), rw e refl, (refl, w))
