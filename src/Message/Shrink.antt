-- ===== src/Message/Shrink.antt =====
-- lustre_shrink_msg_v2 of pack_generic.c: a buffer is shortened in place.
pub mod Moved
pub mod Keeps
use lustre_tools.Base.{
  ℕ, zero, suc, ◌+◌, ◌-◌, ◌*◌, ◌%◌, ◌^◌, ◌≤◌, ◌<◌, ◌≡◌, refl, Bool, true, ◌&&◌, not, Option, none,
  some, ltb, leb, ◌==◌, if◌then◌else◌, ◌>>=◌, ◌>>◌, lassert, update, arith,
}
use lustre_tools.Message.{
  Memory, Libcfs, LustreMsg, add_sizes, lustre_msg_size_v2, lustre_msg_buf_v2,
}

-- The bytes of `[src, src + len)` at `dst`, as they were before the move.
unfoldable pub memmove : ℕ → ℕ → ℕ → Memory → Memory
memmove dst src len mem a = if leb dst a && ltb a (dst + len) then mem (src + (a - dst)) else mem a

module _ (l : Libcfs) where
  -- The rounded lengths of the buffers behind `segment`.
  unfoldable pub tail_length : LustreMsg → ℕ → ℕ
  tail_length msg segment =
      add_sizes l 0 (λ i. msg.lm_buflens (segment + 1 + i)) (msg.lm_bufcount - (segment + 1))

  unfoldable pub move_tail : LustreMsg → ℕ → ℕ → ℕ → Option LustreMsg
  move_tail msg tail tail_len newpos =
      lassert (leb newpos tail)
      >> some (
          if newpos == tail
          then msg
          else record msg { bytes = memmove newpos tail tail_len msg.bytes })

  -- The message after the length is set, with `tail` looked up before.
  unfoldable pub shrink_segment : LustreMsg → ℕ → ℕ → Bool → Option LustreMsg
  shrink_segment msg segment newlen move_data =
      let tail =
        if move_data && ltb (segment + 1) msg.lm_bufcount
        then lustre_msg_buf_v2 l msg (segment + 1) 0
        else none in
      let tail_len = tail_length msg segment in
      let msg' = record msg { lm_buflens = update msg.lm_buflens segment newlen } in
      elim tail [
        | none ↦ some msg'
        | some t ↦
            if tail_len == 0
            then some msg'
            else (lustre_msg_buf_v2 l msg' (segment + 1) 0 >>= λ newpos.
                move_tail msg' t tail_len newpos)
      ]

  -- The message and its new size.
  unfoldable pub lustre_shrink_msg_v2 : LustreMsg → ℕ → ℕ → Bool → Option (LustreMsg × ℕ)
  lustre_shrink_msg_v2 msg segment newlen move_data = do
    lassert (ltb segment msg.lm_bufcount)
    lassert (leb newlen (msg.lm_buflens segment))
    msg' ←
        if msg.lm_buflens segment == newlen
        then some msg
        else shrink_segment msg segment newlen move_data
    some (msg', lustre_msg_size_v2 l msg'.lm_bufcount msg'.lm_buflens)
