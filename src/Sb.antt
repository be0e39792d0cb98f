-- ===== src/Sb.antt =====
-- siprec_sb.c and siprec_sb.h: the growable string buffer, with `size_t` of 64 bits.
-- The allocator behind the pointer `siprec_sb_realloc` is the parameter `realloc`: whether its
-- n-th call, for so many bytes, succeeds. The C library keeps what stood in the block.
pub mod Reserve
pub mod Append
pub mod Concat
use mod_siprec.Base.{
  Bool, Bytes, Option, [], false, if◌then◌else◌, leb, length, ltb, none, not, some, suc, true, zero,
  ℕ, ◌%◌, ◌*◌, ◌++◌, ◌+◌, ◌-◌, ◌==◌, ◌^◌,
}

abbrev pub size_mod : ℕ
size_mod = 2 ^ 64

abbrev pub size_max : ℕ
size_max = size_mod - 1

-- SB_MAX_CAP
abbrev pub max_cap : ℕ
max_cap = 64 * 1024 * 1024

-- `text` is the written part of `data`, and none for a NULL pointer; `calls` counts the calls of
-- the allocator.
pub record Sb : Type 0 where
  pub text : Option Bytes
  pub len : ℕ
  pub cap : ℕ
  pub err : Bool
  pub calls : ℕ

-- What stands in the buffer.
abbrev pub text_of : Option Bytes → Bytes
text_of none = []
text_of (some t) = t

unfoldable pub sb_init : Sb
sb_init = record { text = none; len = 0; cap = 0; err = false; calls = 0 }

-- `while (new_cap < want) new_cap *= 2;` in at most `fuel` rounds.
unfoldable pub double : ℕ → ℕ → ℕ → ℕ
double zero new_cap want = new_cap
double (suc fuel) new_cap want =
    let rest = double fuel ((new_cap * 2) % size_mod) want in
    if ltb new_cap want then rest else new_cap

-- 18 rounds lead from 256 to `max_cap`.
abbrev pub double_fuel : ℕ
double_fuel = 18

unfoldable pub sb_can_grow_by : Sb → ℕ → Bool
sb_can_grow_by sb extra =
    if ltb (size_max - 1) extra
    then false
    else if ltb (size_max - extra - 1) sb.len
    then false
    else not (ltb max_cap ((sb.len + extra + 1) % size_mod))

-- The result of `vsnprintf` as a `size_t`: an `int`, which is negative for a text that does not
-- fit into one.
abbrev pub printed_length : Bytes → ℕ
printed_length s = if ltb (2 ^ 31 - 1) (length s) then size_max else length s

-- `memcpy` of `n` bytes behind the text, and the terminating NUL.
abbrev pub put : Bytes → Sb → Sb
put s sb = record sb { text = some (text_of sb.text ++ s); len = sb.len + length s }

abbrev pub put_if : Bytes → Sb × Bool → Sb
put_if s (sb, true) = put s sb
put_if s (sb, false) = sb

module _ (realloc : ℕ → ℕ → Bool) where
  -- The new state, and whether the C function returns 0.
  unfoldable pub sb_reserve : Sb → ℕ → Sb × Bool
  unfolding double
  sb_reserve sb want =
      let new_cap = double double_fuel (if sb.cap == 0 then 256 else sb.cap) want in
      if leb want sb.cap
      then (sb, true)
      else if realloc sb.calls new_cap
      then (record sb { text = some (text_of sb.text); cap = new_cap; calls = suc sb.calls }, true)
      else (record sb { err = true; calls = suc sb.calls }, false)

  unfoldable pub sb_append : Bytes → Sb → Sb
  unfolding sb_can_grow_by sb_reserve
  sb_append s sb =
      if sb.err
      then sb
      else if length s == 0
      then sb
      else if not (sb_can_grow_by sb (length s))
      then record sb { err = true }
      else put_if s (sb_reserve sb (sb.len + length s + 1))

  -- `sb_appendf` of a format and arguments that print as `s`.
  unfoldable pub sb_appendf : Bytes → Sb → Sb
  unfolding sb_can_grow_by sb_reserve
  sb_appendf s sb =
      if sb.err
      then sb
      else if not (sb_can_grow_by sb (printed_length s))
      then record sb { err = true }
      else put_if s (sb_reserve sb (sb.len + printed_length s + 1))

-- Both outcomes of the shrinking `realloc` hand over the same text.
unfoldable pub sb_take : Sb → Option Bytes
sb_take sb = if sb.err then none else sb.text
