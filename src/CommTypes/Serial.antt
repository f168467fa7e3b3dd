-- ===== src/CommTypes/Serial.antt =====
-- serializePipe and deserializePipe of src/commtypes.c: a pipe as an argument on a command line. The
-- scanning of libc is a parameter.
use Prim.Native.String.{String, ◌++◌ as concat}
use pint.Common.{
  ℕ, ◌<◌, ◌≡◌, List, [], ◌∷◌, Option, none, some, arith, ◌==◌, if◌then◌else◌, get_or, ap, ◌∙◌,
}
use pint.Common.Int.{ℤ, pos}
use pint.Os.{Os}
use pint.CommTypes.Types.{Message, TypedPipe, message_name, comm_to_enum}
use pint.CommTypes.Pipes.{comm_to_enum-message_name}

-- sscanf and atoi. `scan n` is the format "%m[^:]" with n times ":%d": the conversions that it makes,
-- up to the first that fails. The numbers are descriptors and flags, which are not negative.
pub record Scanf : Type 0 where
  pub scan : ℕ → String → Option String × List ℕ
  pub atoi : String → ℤ

-- One more than the largest int.
abbrev pub int_bound : ℕ
int_bound = 2147483648

abbrev pub pipe_text : Os → Message → ℕ → ℕ → String
pipe_text os type fd_in fd_out =
    concat (message_name type)
      (concat ":" (concat (os.decimal (pos fd_in)) (concat ":" (os.decimal (pos fd_out)))))

-- What is printed with %d is read with %d, and a name without a colon ends before the colon.
pub record ReadsBack (os : Os) (s : Scanf) : Type 0 where
  pub two :
      (m : Message) (a b : ℕ)
      → a < int_bound
      → b < int_bound
      → s.scan 2 (pipe_text os m a b) ≡ (some (message_name m), a ∷ b ∷ [])
  pub three :
      (m : Message) (a b c : ℕ)
      → a < int_bound
      → b < int_bound
      → c < int_bound
      → s.scan 3 (concat (pipe_text os m a b) (concat ":" (os.decimal (pos c))))
        ≡ (some (message_name m), a ∷ b ∷ c ∷ [])

unfoldable pub serialize_pipe : Os → TypedPipe → String
unfolding message_name
serialize_pipe os p =
    let fd_in = if p.fd_in == 0 then 0 else p.fd_in in
    let fd_out = if p.fd_in == 0 then p.fd_out else 0 in pipe_text os p.type fd_in fd_out

-- What deserializePipe stores. `none`: there is no type, and an unset pointer is read.
unfoldable pub store_pipe : Option String × List ℕ → Option TypedPipe
unfolding comm_to_enum
store_pipe (none, numbers) = none
store_pipe (some name, numbers) =
    some
      (record { type = comm_to_enum name; fd_in = get_or numbers 0 0; fd_out = get_or numbers 1 0 })

unfoldable pub deserialize_pipe : Scanf → String → Option TypedPipe
unfolding store_pipe
deserialize_pipe s serial = store_pipe (s.scan 2 serial)

-- Descriptors that are ints.
pub record HasIntFds (p : TypedPipe) : Type 0 where
  pub in_fits : p.fd_in < int_bound
  pub out_fits : p.fd_out < int_bound

-- The end that is passed on: the reading end, or the writing end where no reading end is set.
abbrev pub passed_end : TypedPipe → TypedPipe
passed_end p = record p { fd_out = if p.fd_in == 0 then p.fd_out else 0 }

pub serialize_pipe_lem :
    (os : Os) (p : TypedPipe)
    → serialize_pipe os p ≡ pipe_text os p.type (passed_end p).fd_in (passed_end p).fd_out
unfolding serialize_pipe
serialize_pipe_lem os p = ap (λ a. pipe_text os p.type a (passed_end p).fd_out) (same p.fd_in)
  where
    same : (n : ℕ) → (if n == 0 then 0 else n) ≡ n
    same n = ground arith

pub passed_end-HasIntFds : (p : TypedPipe) → HasIntFds p → HasIntFds (passed_end p)
passed_end-HasIntFds p f = ground arith

-- What serializePipe writes of a pipe whose descriptors are ints, deserializePipe reads back as the
-- pipe with its type and the end that is set, the reading end where both are; printf and sscanf
-- reading back what they write.
pub deserialize_pipe-serialize_pipe :
    (os : Os) (s : Scanf) (p : TypedPipe)
    → ReadsBack os s
    → HasIntFds p
    → deserialize_pipe s (serialize_pipe os p) ≡ some (passed_end p)
unfolding deserialize_pipe
deserialize_pipe-serialize_pipe os s p law f =
    let q = passed_end p in
    let g = passed_end-HasIntFds p f in
    ap (deserialize_pipe s) (serialize_pipe_lem os p)
    ∙ ap store_pipe (law.two p.type q.fd_in q.fd_out g.in_fits g.out_fits)
    ∙ ap (λ type. some (record q { type = type })) (comm_to_enum-message_name p.type)
