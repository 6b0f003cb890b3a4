-- ===== src/Message/Store.antt =====
-- lustre_init_msg_v2 of pack_generic.c: what the copied buffers leave in the message.
use lustre_tools.Base.{
  ℕ, zero, suc, ◌+◌, ◌*◌, ◌≤◌, ◌<◌, ◌≡◌, refl, sym, ap, ◌∙◌, ◌⊎◌, inl, inr, Option, some, ◌==◌,
  Bool-cases, arith,
}
use lustre_tools.Message.{
  Memory, Libcfs, IsLibcfs, LustreMsg, lustre_msg_magic_v2, lustre_msg_hdr_size_v2,
  lustre_msg_size_v2, lustre_msg_buf_v2, copy_bufs, lustre_init_msg_v2,
}
use lustre_tools.Message.Layout.{
  sum_sizes, sum_sizes_next, hdr_size, hdr_size_lem, FitsInt, offset_lem, size_lem, buf_some,
  add_sizes_cong,
}

module _ (l : Libcfs) (h : IsLibcfs l) (lens : ℕ → ℕ) (bufs : ℕ → Option Memory)
    (mem : Memory) where
  copied_ptr : (p n : ℕ) → (copy_bufs l lens bufs (mem, p) n).1 ≡ p + sum_sizes l lens n
  unfolding copy_bufs
  copied_ptr p zero = omega arith
  copied_ptr p (suc n) = omega (
    arith,
    copied_ptr p n,
    h.logl_moves (bufs n) (lens n) (copy_bufs l lens bufs (mem, p) n).0
        (copy_bufs l lens bufs (mem, p) n).1,
  )

  -- One turn leaves what lies before its pointer.
  turn_before :
      (p n a : ℕ)
      → a < p + sum_sizes l lens n
      → (copy_bufs l lens bufs (mem, p) (suc n)).0 a ≡ (copy_bufs l lens bufs (mem, p) n).0 a
  unfolding copy_bufs
  turn_before p n a k =
      h.logl_before (bufs n) (lens n) (copy_bufs l lens bufs (mem, p) n).0
        (copy_bufs l lens bufs (mem, p) n).1 a (omega (arith, copied_ptr p n))

  -- The bytes before the first buffer and behind the last one are as they were.
  pub copied_outside :
      (p n a : ℕ)
      → (a < p) ⊎ (p + sum_sizes l lens n ≤ a)
      → (copy_bufs l lens bufs (mem, p) n).0 a ≡ mem a
  unfolding copy_bufs
  copied_outside p zero a k = refl
  copied_outside p (suc n) a (inl k) =
      turn_before p n a (omega arith) ∙ copied_outside p n a (inl k)
  copied_outside p (suc n) a (inr k) =
      h.logl_behind (bufs n) (lens n) (copy_bufs l lens bufs (mem, p) n).0
        (copy_bufs l lens bufs (mem, p) n).1 a (omega (arith, copied_ptr p n))
      ∙ copied_outside p n a (inr (omega arith))

  own_turn :
      (p n i : ℕ) (src : Memory)
      → bufs n ≡ some src
      → i < lens n
      → (copy_bufs l lens bufs (mem, p) (suc n)).0 (p + sum_sizes l lens n + i) ≡ src i
  unfolding copy_bufs
  own_turn p n i src e il =
      rw (copy_bufs, e, sym (copied_ptr p n))
        (h.logl_copies src (lens n) (copy_bufs l lens bufs (mem, p) n).0
          (copy_bufs l lens bufs (mem, p) n).1 i il)

  -- The turn of a buffer writes it, and later turns leave it.
  pub copied_inside :
      (p k n i : ℕ) (src : Memory)
      → n < k
      → bufs n ≡ some src
      → i < lens n
      → lens n ≤ l.cfs_size_round (lens n)
      → (copy_bufs l lens bufs (mem, p) k).0 (p + sum_sizes l lens n + i) ≡ src i
  copied_inside p zero n i src nk e il r = absurd (omega arith)
  copied_inside p (suc k) n i src nk e il r = elim (Bool-cases (n == k)) [
    | inl t ↦ let n≡k : n ≡ k = ground arith in rw (sym n≡k) (own_turn p n i src e il)
    | inr t ↦
        turn_before p k (p + sum_sizes l lens n + i) (ground (arith, sum_sizes_next l lens n k))
        ∙ copied_inside p k n i src (ground arith) e il r
  ]

module _ (l : Libcfs) (msg : LustreMsg) (count : ℕ) (lens : ℕ → ℕ)
    (bufs : Option (ℕ → Option Memory)) where
  abbrev pub packed : LustreMsg
  packed = lustre_init_msg_v2 l msg count lens bufs

  pub packed_count : packed.lm_bufcount ≡ count
  unfolding lustre_init_msg_v2
  packed_count = ground arith

  pub packed_magic : packed.lm_magic ≡ lustre_msg_magic_v2
  unfolding lustre_init_msg_v2
  packed_magic = ground arith

  pub packed_lens : (i : ℕ) → i < count → packed.lm_buflens i ≡ lens i
  unfolding lustre_init_msg_v2
  packed_lens i k = ground arith

pub packed_found :
    (l : Libcfs) (msg : LustreMsg) (count : ℕ) (lens : ℕ → ℕ) (bufs : Option (ℕ → Option Memory))
    (n min_size : ℕ)
    → FitsInt l count lens
    → n < count
    → min_size ≤ lens n
    → lustre_msg_buf_v2 l (lustre_init_msg_v2 l msg count lens bufs) n min_size
      ≡ some (hdr_size l count + sum_sizes l lens n)
packed_found l msg count lens bufs n min_size fits nc ml =
    let m = packed l msg count lens bufs in
    buf_some l m n min_size (omega (arith, packed_count l msg count lens bufs))
      (omega (arith, packed_lens l msg count lens bufs n nc))
    ∙ ap some (
        rw (packed_count l msg count lens bufs) (
          add_sizes_cong l (lustre_msg_hdr_size_v2 l count) m.lm_buflens lens n
            (λ i k. packed_lens l msg count lens bufs i (omega arith))
          ∙ offset_lem l count lens fits n (omega arith)))

packed_bytes :
    (l : Libcfs) (msg : LustreMsg) (count : ℕ) (lens : ℕ → ℕ) (bufs : ℕ → Option Memory)
    → FitsInt l count lens
    → (a : ℕ)
    → (packed l msg count lens (some bufs)).bytes a
      ≡ (copy_bufs l lens bufs (msg.bytes, hdr_size l count) count).0 a
unfolding lustre_init_msg_v2
packed_bytes l msg count lens bufs fits a =
    ap (λ (p : ℕ). (copy_bufs l lens bufs (msg.bytes, p) count).0 a)
      (hdr_size_lem l count lens fits)

-- Packing and reading back, for a message whose header and rounded buffers sum to less than 2^31 and
-- whose lengths are each 8 below 2^31 (`FitsInt`): buffer n of the packed message is found, for every
-- size up to its length, and holds the bytes that were given for it.
pub msg_buf-init_msg :
    (l : Libcfs) (msg : LustreMsg) (count : ℕ) (lens : ℕ → ℕ) (bufs : ℕ → Option Memory)
    (n min_size i : ℕ) (src : Memory)
    → IsLibcfs l
    → FitsInt l count lens
    → n < count
    → min_size ≤ lens n
    → bufs n ≡ some src
    → i < lens n
    → (a : ℕ) × (lustre_msg_buf_v2 l (lustre_init_msg_v2 l msg count lens (some bufs)) n min_size
        ≡ some a)
      × ((lustre_init_msg_v2 l msg count lens (some bufs)).bytes (a + i) ≡ src i)
msg_buf-init_msg l msg count lens bufs n min_size i src h fits nc ml e il = (
  hdr_size l count + sum_sizes l lens n,
  packed_found l msg count lens (some bufs) n min_size fits nc ml,
  packed_bytes l msg count lens bufs fits (hdr_size l count + sum_sizes l lens n + i)
      ∙ copied_inside l h lens bufs msg.bytes (hdr_size l count) count n i src nc e il
          (h.rounds_up (lens n) (fits.each n nc)),
)

-- Packing writes no byte of the header's place and none from lustre_msg_size_v2 on.
pub init_msg_within :
    (l : Libcfs) (msg : LustreMsg) (count : ℕ) (lens : ℕ → ℕ) (bufs : ℕ → Option Memory) (a : ℕ)
    → IsLibcfs l
    → FitsInt l count lens
    → (a < 32 + 4 * count) ⊎ (lustre_msg_size_v2 l count lens ≤ a)
    → (lustre_init_msg_v2 l msg count lens (some bufs)).bytes a ≡ msg.bytes a
init_msg_within l msg count lens bufs a h fits k =
    packed_bytes l msg count lens bufs fits a
    ∙ copied_outside l h lens bufs msg.bytes (hdr_size l count) count a (outside k)
  where
    outside :
        (a < 32 + 4 * count) ⊎ (lustre_msg_size_v2 l count lens ≤ a)
        → (a < hdr_size l count) ⊎ (hdr_size l count + sum_sizes l lens count ≤ a)
    outside (inl t) = inl (omega (arith, h.rounds_up (32 + 4 * count) fits.header))
    outside (inr t) = inr (omega (arith, size_lem l count lens fits))
