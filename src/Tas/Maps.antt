-- ===== src/Tas/Maps.antt =====
-- parseLine and forceMaps of tas_lib/force.c: the process touches the memory that a line of
-- /proc/self/maps describes, so that no page of it is still shared copy-on-write. strtoul of libc, in
-- base 16, is a parameter.
use pint.Common.{
  ℕ, zero, suc, ◌+◌, ◌-◌, ◌/◌, ◌%◌, ◌^◌, ◌&&◌, List, [], ◌∷◌, ◌++◌, Option, none, some, ltb, leb,
  ◌==◌, if◌then◌else◌, length, get_or, ◌>>=◌,
}
use pint.Common.Int.{ℤ, pos, negsuc}

-- The size of a page of x86.
abbrev pub page : ℕ
page = 4096

-- The step of the loop over the memory.
abbrev pub stride : ℕ
stride = 2048

-- The longest field that fits start_s and end_s, with its NUL.
abbrev pub field_max : ℕ
field_max = 16

-- The characters before the first `stop`, and those behind it. `none`: there is no `stop`, and the
-- loop reads behind the line.
unfoldable pub read_until : ℕ → List ℕ → Option (List ℕ × List ℕ)
read_until stop [] = none
read_until stop (c ∷ line) =
    let rest = read_until stop line in
    if c == stop then some ([], line) else (rest >>= λ r. some (c ∷ r.0, r.1))

-- A field is stored in an array of 17 characters. `none`: it does not fit.
unfoldable pub short_field : ℕ → List ℕ → Option (List ℕ × List ℕ)
unfolding read_until
short_field stop line =
    read_until stop line >>= λ r. if leb (length r.0) field_max then some r else none

-- The addresses that are read and written back, in unsigned arithmetic of 64 bits. `none`: out of
-- fuel.
unfoldable pub touch : ℕ → ℕ → ℕ → Option (List ℕ)
touch zero address end = none
touch (suc fuel) address end =
    let rest = touch fuel ((address + stride) % 2 ^ 64) end in
    if ltb address end then (rest >>= λ l. some (address ∷ l)) else some []

-- More rounds than the loop can take when it does not go round the address space.
abbrev pub touch_fuel : ℕ → ℕ → ℕ
touch_fuel start end = (end - start) / stride + 2

module _ (strtoul : List ℕ → ℕ) where
  -- The addresses that one line leads to.
  unfoldable pub parse_line : List ℕ → Option (List ℕ)
  unfolding short_field touch
  parse_line line = short_field b'-' line >>= λ first. short_field b' ' first.1 >>= λ second.
      (let readable = get_or second.1 0 0 == b'r' in
        let writable = get_or second.1 1 0 == b'w' in
        let start = strtoul first.0 in
        let end = strtoul second.0 in
        if readable && writable then touch (touch_fuel start end) start end else some [])

  unfoldable pub parse_lines : List (List ℕ) → Option (List ℕ)
  unfolding parse_line
  parse_lines [] = some []
  parse_lines (line ∷ lines) =
      parse_line line >>= λ here. parse_lines lines >>= λ later. some (here ++ later)

  -- The return value and the addresses touched. `none` for the lines: fopen fails.
  unfoldable pub force_maps : Option (List (List ℕ)) → Option (ℤ × List ℕ)
  unfolding parse_lines
  force_maps none = some (negsuc 0, [])
  force_maps (some lines) = parse_lines lines >>= λ touched. some (pos 0, touched)
