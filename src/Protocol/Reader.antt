-- ===== src/Protocol/Reader.antt =====
-- protocol/frontend.ts: Reader, and the errors of FrontendAssembler.
use interleave.Prelude.{
  ℕ, zero, suc, ◌+◌, ◌*◌, Bool, true, false, ◌&&◌, not, none, some, [], ◌∷◌, Bytes, length, take,
  drop, ltb, leb, ◌==◌, if◌then◌else◌,
}
use interleave.Protocol.Messages.{split_zero, u16}

pub data AssemblerError : Type 0 where
  early_flush copy_data simple_in_cycle unsupported_message flush_without_messages cycle_limit :
      AssemblerError
  malformed_fields malformed_string trailing_bytes malformed_bind malformed_execute
        malformed_target :
      AssemblerError
  unknown_statement unknown_portal metadata_limit : AssemblerError
  expected_prefix malformed_prefix foreign_describe : AssemblerError
  invalid_continuation sync_only expected_continuation foreign_bind foreign_execute limited_execute
        incomplete_continuation :
      AssemblerError
  invalid_flush_stage incomplete_flush_stage invalid_flush_continuation
        incomplete_flush_continuation incomplete_unit :
      AssemblerError

pub data Result (A : Type 0) : Type 0 where
  error : AssemblerError → Result A
  ok : A → Result A

abbrev pub and_then : {A B : Type 0} → Result A → (A → Result B) → Result B
and_then (error e) f = error e
and_then (ok a) f = f a

infixl 5 ◌>>=◌ ◌>>◌
abbrev pub ◌>>=◌ : {A B : Type 0} → Result A → (A → Result B) → Result B
m >>= f = and_then m f

abbrev pub ◌>>◌ : {B : Type 0} → Result (Unit {0}) → Result B → Result B
m >> k = and_then m (λ done. k)

abbrev pub throw_if : Bool → AssemblerError → Result (Unit {0})
throw_if true e = error e
throw_if false e = ok tt

-- Reader: what is left of the frame stands for the offset.
unfoldable pub take_bytes : ℕ → Bytes → Result (Bytes × Bytes)
take_bytes n rest =
    if ltb (length rest) n then error malformed_fields else ok (take n rest, drop n rest)

unfoldable pub cstring : Bytes → Result (Bytes × Bytes)
unfolding split_zero
cstring rest = elim (split_zero rest) [
  | none ↦ error malformed_string
  | some (value, after) ↦ ok (value, after)
]

unfoldable pub read_u16 : Bytes → Result (ℕ × Bytes)
unfolding take_bytes u16
read_u16 rest = and_then (take_bytes 2 rest) (λ (value, after). ok (u16 value, after))

abbrev pub word : Bytes → ℕ
word value = u16 value * 65536 + u16 (drop 2 value)

-- `i32`, as the unsigned word: 4294967295 is -1, and a negative number is at least 2147483648.
unfoldable pub read_i32 : Bytes → Result (ℕ × Bytes)
unfolding take_bytes u16
read_i32 rest = and_then (take_bytes 4 rest) (λ (value, after). ok (word value, after))

unfoldable pub finish : Bytes → Result Unit
finish [] = ok tt
finish (b ∷ rest) = error trailing_bytes

-- Format codes, of which none is above 1.
unfoldable pub skip_formats : ℕ → Bytes → Result Bytes
unfolding read_u16
skip_formats zero rest = ok rest
skip_formats (suc n) rest =
    and_then (read_u16 rest)
      (λ (format, after). if ltb 1 format then error malformed_bind else skip_formats n after)

-- Parameter values, each with its size or -1.
unfoldable pub skip_values : ℕ → Bytes → Result Bytes
unfolding read_i32 take_bytes
skip_values zero rest = ok rest
skip_values (suc n) rest = and_then (read_i32 rest) (λ (size, after).
    if size == 4294967295
    then skip_values n after
    else if leb 2147483648 size
    then error malformed_fields
    else and_then (take_bytes size after) (λ (value, more). skip_values n more))

-- The part of a Bind after its names.
unfoldable pub skip_bind : Bytes → Result Unit
unfolding read_u16 skip_formats skip_values finish
skip_bind rest = and_then (read_u16 rest) (λ (formats, a). and_then (skip_formats formats a) (λ b.
    and_then (read_u16 b) (λ (params, c).
      if not (formats == 0) && not (formats == 1) && not (formats == params)
      then error malformed_bind
      else and_then (skip_values params c)
          (λ d. and_then (read_u16 d) (λ (results, e). and_then (skip_formats results e) finish)))))
