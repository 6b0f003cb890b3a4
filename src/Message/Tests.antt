-- ===== src/Message/Tests.antt =====
-- Runs of the messages: packing, unpacking, shrinking and strings on small messages.
use lustre_tools.Base.{
  ℕ, ◌+◌, ◌-◌, ◌*◌, ◌/◌, ◌%◌, ◌^◌, ◌≤◌, ◌<◌, ◌≡◌, refl, ap, ◌⊎◌, true, false, Option, none, some,
  ◌&&◌, ltb, leb, ◌==◌, if◌then◌else◌, update, pos, success, einval, ◌≤ℤ◌, ltb_ℤ, signed32, ◌↔◌,
  inl, inr, arith,
}
use lustre_tools.Message.{
  Memory, Libcfs, IsLibcfs, LustreMsg, lustre_msg_magic_v2, add_sizes, lustre_msg_hdr_size_v2,
  lustre_msg_size_v2, lustre_msg_buf_v2, lustre_msg_buflen_v2, copy_bufs, lustre_init_msg_v2,
}
use lustre_tools.Message.Layout.{FitsInt, buffers_apart}
use lustre_tools.Message.Store.{msg_buf-init_msg}
use lustre_tools.Message.Unpack.{lustre_unpack_msg, lustre_unpack_msg_v2, check_lens}
use lustre_tools.Message.Checks.{unpack_msg-size}
use lustre_tools.Message.Accepted.{accepted_within, unpack_forged}
use lustre_tools.Message.Foreign.{IsWords, foreign, unpack_foreign}
use lustre_tools.Message.Shrink.{lustre_shrink_msg_v2}
use lustre_tools.Message.Shrink.Keeps.{shrink_msg-keeps}
use lustre_tools.Message.Text.{lustre_msg_string, strnlen, fits_string, IsText, msg_string_iff}

-- libcfs, as it is documented.
abbrev round_to_8 : ℕ → ℕ
round_to_8 v = (v + 7) / 8 * 8

abbrev copy_then_move : Option Memory → ℕ → Memory × ℕ → Memory × ℕ
copy_then_move none len (mem, ptr) = (mem, ptr + round_to_8 len)
copy_then_move (some src) len (mem, ptr) =
    ((λ a. if leb ptr a && ltb a (ptr + len) then src (a - ptr) else mem a), ptr + round_to_8 len)

abbrev libcfs : Libcfs
libcfs = record { cfs_size_round = round_to_8; logl = copy_then_move }

moves :
    (var : Option Memory) (len : ℕ) (mem : Memory) (ptr : ℕ)
    → (copy_then_move var len (mem, ptr)).1 ≡ ptr + round_to_8 len
moves none len mem ptr = refl
moves (some src) len mem ptr = refl

leaves :
    (var : Option Memory) (len : ℕ) (mem : Memory) (ptr a : ℕ)
    → (a < ptr) ⊎ (ptr + len ≤ a)
    → (copy_then_move var len (mem, ptr)).0 a ≡ mem a
leaves none len mem ptr a h = refl
leaves (some src) len mem ptr a h = ground arith

copies :
    (src : Memory) (len : ℕ) (mem : Memory) (ptr i : ℕ)
    → i < len
    → (copy_then_move (some src) len (mem, ptr)).0 (ptr + i) ≡ src i
copies src len mem ptr i h = ground (arith, ap src (back ptr i))
  where
    back : (ptr i : ℕ) → ptr + i - ptr ≡ i
    back ptr i = omega arith

libcfs-IsLibcfs : IsLibcfs libcfs
libcfs-IsLibcfs = record {
  rounds_up = λ v h. omega arith;
  rounds_near = λ v h. omega arith;
  rounds_eights = λ v h. omega arith;
  logl_moves = moves;
  logl_copies = copies;
  logl_before = λ var len mem ptr a h. leaves var len mem ptr a (inl h);
  logl_behind = λ var len mem ptr a h. leaves var len mem ptr a (inr (omega arith));
}

abbrev zeros : Memory
zeros a = 0

-- A message without buffers.
abbrev blank : LustreMsg
blank = record {
  lm_bufcount = 0;
  lm_secflvr = 0;
  lm_magic = lustre_msg_magic_v2;
  lm_repsize = 0;
  lm_cksum = 0;
  lm_flags = 0;
  lm_padding_2 = 0;
  lm_padding_3 = 0;
  lm_buflens = zeros;
  bytes = zeros;
}

-- Two buffers of 5 and 3 bytes, with the bytes 10, 11, .. and 20, 21, ..
abbrev two_lens : ℕ → ℕ
two_lens i = if i == 0 then 5 else 3

abbrev two_bufs : ℕ → Option Memory
two_bufs i = some (λ a. if i == 0 then 10 + a else 20 + a)

two_lens_fit : FitsInt libcfs 2 two_lens
two_lens_fit = record { header = omega arith; each = λ i h. ground arith; whole = omega arith }

abbrev two : LustreMsg
two = record {
  lm_bufcount = 2;
  lm_secflvr = 7;
  lm_magic = lustre_msg_magic_v2;
  lm_repsize = 400;
  lm_cksum = 0;
  lm_flags = 1;
  lm_padding_2 = 0;
  lm_padding_3 = 0;
  lm_buflens = two_lens;
  bytes = λ a. a;
}

packed_second : (lustre_init_msg_v2 libcfs blank 2 two_lens (some two_bufs)).bytes (48 + 2) ≡ 22
unfolding lustre_init_msg_v2 copy_bufs lustre_msg_hdr_size_v2
packed_second = refl

two_size : lustre_msg_size_v2 libcfs 2 two_lens ≡ 56
unfolding lustre_msg_size_v2 lustre_msg_hdr_size_v2 add_sizes
two_size = refl

msg_buf-init_msg_example :
    (a : ℕ) × (lustre_msg_buf_v2 libcfs
        (lustre_init_msg_v2 libcfs blank 2 two_lens (some two_bufs))
        1
        3
      ≡ some a)
    × ((lustre_init_msg_v2 libcfs blank 2 two_lens (some two_bufs)).bytes (a + 2) ≡ 22)
msg_buf-init_msg_example =
    msg_buf-init_msg libcfs blank 2 two_lens two_bufs 1 3 2 (λ a. 20 + a) libcfs-IsLibcfs
      two_lens_fit (omega arith) (omega arith) refl (omega arith)

at_40 : lustre_msg_buf_v2 libcfs two 0 0 ≡ some 40
unfolding lustre_msg_buf_v2 add_sizes lustre_msg_hdr_size_v2
at_40 = refl

at_48 : lustre_msg_buf_v2 libcfs two 1 0 ≡ some 48
unfolding lustre_msg_buf_v2 add_sizes lustre_msg_hdr_size_v2
at_48 = refl

buffers_apart_example :
    (32 + 4 * 2 ≤ 40)
    × (40 + 5 ≤ 48)
    × (48 % 8 ≡ 0)
    × (48 + 3 ≤ lustre_msg_size_v2 libcfs 2 two_lens)
buffers_apart_example =
    buffers_apart libcfs two 0 1 40 48 libcfs-IsLibcfs two_lens_fit (omega arith) at_40 at_48

unpack_msg-size_example : lustre_unpack_msg libcfs two (pos 55) ≡ (
  two,
  (if ltb_ℤ (pos 55) (pos (lustre_msg_size_v2 libcfs 2 two_lens)) then einval else success),
)
unpack_msg-size_example =
    unpack_msg-size libcfs two (pos 55) libcfs-IsLibcfs two_lens_fit (λ e. absurd (omega arith))

accepted : lustre_unpack_msg libcfs two (pos 56) ≡ (two, success)
unfolding lustre_unpack_msg lustre_unpack_msg_v2 check_lens lustre_msg_hdr_size_v2 signed32
accepted = refl

accepted_within_example : pos (48 + 3) ≤ℤ pos 56
accepted_within_example =
    accepted_within libcfs two two (pos 56) success 1 48 libcfs-IsLibcfs accepted
      (λ e. absurd (ground (arith, e))) two_lens_fit at_48

-- Two lengths of 2 ^ 30.
abbrev forged : LustreMsg
forged = record two { lm_buflens = λ i. 2 ^ 30 }

unpack_forged_example :
    (a : ℕ) × (lustre_unpack_msg libcfs forged (pos 40) ≡ (forged, success))
    × (lustre_msg_buf_v2 libcfs forged 1 0 ≡ some a)
    × (2 ^ 30 < a)
unpack_forged_example =
    unpack_forged libcfs forged 40 libcfs-IsLibcfs (λ e. absurd (omega arith)) refl
      (λ i h. (omega arith, omega arith)) (omega arith)

two-IsWords : IsWords two
two-IsWords = record {
  count = omega arith;
  secflvr = omega arith;
  repsize = omega arith;
  cksum = omega arith;
  flags = omega arith;
}

unpack_foreign_example :
    (((lustre_unpack_msg libcfs (foreign two) (pos 60)).1 ≡ einval)
      × (ltb_ℤ (pos 60) (pos (lustre_msg_size_v2 libcfs 2 two_lens)) ≡ true))
    ⊎ ((lustre_unpack_msg libcfs (foreign two) (pos 60) ≡ (two, pos 1))
        × (ltb_ℤ (pos 60) (pos (lustre_msg_size_v2 libcfs 2 two_lens)) ≡ false))
unpack_foreign_example =
    unpack_foreign libcfs two (pos 60) libcfs-IsLibcfs two-IsWords two_lens_fit refl

shrink_msg-keeps_example :
    (m' : LustreMsg) × (lustre_shrink_msg_v2 libcfs two 0 0 true
      ≡ some (m', lustre_msg_size_v2 libcfs 2 (update two_lens 0 0)))
    × ((k i : ℕ)
        → k < 2
        → i < update two_lens 0 0 k
        → (a b : ℕ) × (lustre_msg_buf_v2 libcfs m' k 0 ≡ some a)
          × (lustre_msg_buf_v2 libcfs two k 0 ≡ some b)
          × (m'.bytes (a + i) ≡ two.bytes (b + i)))
shrink_msg-keeps_example =
    shrink_msg-keeps libcfs two 0 0 libcfs-IsLibcfs two_lens_fit (omega arith) (omega arith)

-- "ab" in the second buffer.
abbrev with_text : LustreMsg
with_text = record two { bytes = λ a. if a == 48 then 97 else if a == 49 then 98 else 0 }

text_found : lustre_msg_string libcfs with_text 1 0 ≡ some (some 48)
unfolding lustre_msg_string lustre_msg_buf_v2 add_sizes lustre_msg_hdr_size_v2 strnlen fits_string
    lustre_msg_buflen_v2
text_found = refl

msg_string_iff_example :
    (lustre_msg_string libcfs with_text 1 0 ≡ some (some 48))
    ↔ ((lustre_msg_buf_v2 libcfs with_text 1 0 ≡ some 48) × IsText with_text 1 0 48)
msg_string_iff_example = msg_string_iff libcfs with_text 1 0 48 refl
