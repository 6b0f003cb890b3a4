-- ===== src/Message.antt =====
-- source/build/metric/pack_generic.c and struct lustre_msg_v2 of lustre_idl.h: the layout of a
-- message, its sizes, and the packing of its buffers.
-- `cfs_size_round` and the macro LOGL are of libcfs, which is not in the repository: they are the
-- parameter `Libcfs`, with what the code relies on in `IsLibcfs`. A pointer into a message is its
-- offset from the message's start; the 32-bit words of the header are kept apart from the bytes,
-- since the buffers begin behind them.
pub mod Layout
pub mod Store
pub mod Unpack
pub mod Checks
pub mod Accepted
pub mod Foreign
pub mod Body
pub mod Shrink
pub mod Text
mod Tests
use lustre_tools.Base.{
  ℕ, zero, suc, ◌+◌, ◌*◌, ◌%◌, ◌^◌, ◌≤◌, ◌<◌, ◌≡◌, Bool, true, Option, none, some, ltb, leb, ◌==◌,
  if◌then◌else◌, ◌>>◌, lassert,
}

-- Bytes by their offset.
abbrev pub Memory : Type 0
Memory = ℕ → ℕ

-- `logl var len (mem, ptr)` is the memory and the pointer after LOGL(var, len, ptr).
pub record Libcfs : Type 0 where
  pub cfs_size_round : ℕ → ℕ
  pub logl : Option Memory → ℕ → Memory × ℕ → Memory × ℕ

pub record IsLibcfs (l : Libcfs) : Type 0 where
  pub rounds_up : (v : ℕ) → v + 8 ≤ 2 ^ 31 → v ≤ l.cfs_size_round v
  pub rounds_near : (v : ℕ) → v + 8 ≤ 2 ^ 31 → l.cfs_size_round v < v + 8
  pub rounds_eights : (v : ℕ) → v + 8 ≤ 2 ^ 31 → l.cfs_size_round v % 8 ≡ 0
  pub logl_moves :
      (var : Option Memory) (len : ℕ) (mem : Memory) (ptr : ℕ)
      → (l.logl var len (mem, ptr)).1 ≡ ptr + l.cfs_size_round len
  pub logl_copies :
      (src : Memory) (len : ℕ) (mem : Memory) (ptr i : ℕ)
      → i < len
      → (l.logl (some src) len (mem, ptr)).0 (ptr + i) ≡ src i
  pub logl_before :
      (var : Option Memory) (len : ℕ) (mem : Memory) (ptr a : ℕ)
      → a < ptr
      → (l.logl var len (mem, ptr)).0 a ≡ mem a
  pub logl_behind :
      (var : Option Memory) (len : ℕ) (mem : Memory) (ptr a : ℕ)
      → ptr + l.cfs_size_round len ≤ a
      → (l.logl var len (mem, ptr)).0 a ≡ mem a

-- `lm_buflens i` is the i-th word behind the header, whether the message has that buffer or not.
pub record LustreMsg : Type 0 where
  pub lm_bufcount : ℕ
  pub lm_secflvr : ℕ
  pub lm_magic : ℕ
  pub lm_repsize : ℕ
  pub lm_cksum : ℕ
  pub lm_flags : ℕ
  pub lm_padding_2 : ℕ
  pub lm_padding_3 : ℕ
  pub lm_buflens : ℕ → ℕ
  pub bytes : Memory

abbrev pub lustre_msg_magic_v1 : ℕ
lustre_msg_magic_v1 = 0x0bd00bd0

abbrev pub lustre_msg_magic_v2 : ℕ
lustre_msg_magic_v2 = 0x0bd00bd3

abbrev pub lustre_msg_magic_v2_swabbed : ℕ
lustre_msg_magic_v2_swabbed = 0xd30bd00b

module _ (l : Libcfs) where
  -- `offsetof(struct lustre_msg_v2, lm_buflens[count])` is 32 + 4 * count.
  unfoldable pub lustre_msg_hdr_size_v2 : ℕ → ℕ
  lustre_msg_hdr_size_v2 count = l.cfs_size_round (32 + 4 * count) % 2 ^ 32

  -- `size` after the first `n` turns of `size += cfs_size_round(lengths[i])`.
  unfoldable pub add_sizes : ℕ → (ℕ → ℕ) → ℕ → ℕ
  add_sizes size lengths zero = size
  add_sizes size lengths (suc n) =
      (add_sizes size lengths n + l.cfs_size_round (lengths n)) % 2 ^ 32

  unfoldable pub lustre_msg_size_v2 : ℕ → (ℕ → ℕ) → ℕ
  lustre_msg_size_v2 count lengths = add_sizes (lustre_msg_hdr_size_v2 count) lengths count

  unfoldable pub lustre_packed_msg_size : LustreMsg → ℕ
  lustre_packed_msg_size msg =
      if msg.lm_magic == lustre_msg_magic_v2
      then lustre_msg_size_v2 msg.lm_bufcount msg.lm_buflens
      else 0

  -- The offset of buffer n; `none` is NULL.
  unfoldable pub lustre_msg_buf_v2 : LustreMsg → ℕ → ℕ → Option ℕ
  lustre_msg_buf_v2 m n min_size =
      if leb m.lm_bufcount n
      then none
      else if ltb (m.lm_buflens n) min_size
      then none
      else some (add_sizes (lustre_msg_hdr_size_v2 m.lm_bufcount) m.lm_buflens n)

  -- The memory and `ptr` after the first `n` turns of the loop over LOGL.
  unfoldable pub copy_bufs : (ℕ → ℕ) → (ℕ → Option Memory) → Memory × ℕ → ℕ → Memory × ℕ
  copy_bufs lens bufs start zero = start
  copy_bufs lens bufs start (suc n) = l.logl (bufs n) (lens n) (copy_bufs lens bufs start n)

  -- `lm_buflens[i] = lens[i]` below `count`; `bufs` is none for a null array.
  unfoldable pub lustre_init_msg_v2 :
      LustreMsg → ℕ → (ℕ → ℕ) → Option (ℕ → Option Memory) → LustreMsg
  lustre_init_msg_v2 msg count lens bufs =
      let m' = record msg {
        lm_bufcount = count;
        lm_magic = lustre_msg_magic_v2;
        lm_buflens = λ i. if ltb i count then lens i else msg.lm_buflens i;
      } in
      elim bufs [
        | none ↦ m'
        | some bs ↦ record m' {
          bytes = (copy_bufs lens bs (m'.bytes, lustre_msg_hdr_size_v2 count) count).0;
        }
      ]

-- Length 0 for a buffer that the message does not have.
unfoldable pub lustre_msg_buflen_v2 : LustreMsg → ℕ → ℕ
lustre_msg_buflen_v2 m n = if leb m.lm_bufcount n then 0 else m.lm_buflens n

unfoldable pub lustre_msg_set_buflen_v2 : LustreMsg → ℕ → ℕ → Option LustreMsg
lustre_msg_set_buflen_v2 m n len =
    lassert (ltb n m.lm_bufcount)
    >> some (record m { lm_buflens = λ i. if i == n then len else m.lm_buflens i })
