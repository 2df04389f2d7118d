-- ===== src/Ringbuffer/Slots.antt =====
-- The slots of a ring buffer in memory, and what a copy into one of them leaves of the others.
use n00b_os.Prelude.{
  ℕ, zero, suc, ◌+◌, ◌-◌, ◌*◌, ◌%◌, ◌^◌, ◌≤◌, ◌<◌, ◌≡◌, refl, sym, ap, ap₂, ◌∙◌, ◌≢◌, inl, inr,
  arith, [], ◌∷◌, ◌++◌, length,
}
use native.Mathlib.Nat.{
  mod-lt, mod-add-mod, mod-eq_of_lt, mod-eq-sub-mod, mod-mod_of_dvd, dvd_of_mod-eq-zero,
}
use native.Mathlib.Decide.{dec_lt}
use n00b_os.Libk.Memory.{Memory, Apart, bytes, bytes-frame}
use n00b_os.Libk.Mem.{memcpy}
use n00b_os.Libk.Mem.Laws.{memcpy-copies, memcpy-frame}
use n00b_os.Ringbuffer.Queue.{Queue}

module _ (buffer size nb : ℕ) where
  abbrev pub window : Memory → ℕ → ℕ → Queue
  window m t zero = []
  window m t (suc n) = bytes m (buffer + t % nb * size) size ∷ window m ((t + 1) % 2 ^ 32) n

  pub length-window : (m : Memory) (t n : ℕ) → length (window m t n) ≡ n
  length-window m t zero = refl
  length-window m t (suc n) = ap suc (length-window m ((t + 1) % 2 ^ 32) n)

  pub window_of_ne_zero :
      (m : Memory) (t n : ℕ)
      → n ≢ 0
      → window m t n ≡ bytes m (buffer + t % nb * size) size ∷ window m ((t + 1) % 2 ^ 32) (n - 1)
  window_of_ne_zero m t zero p = absurd (p refl)
  window_of_ne_zero m t (suc n) p = ap (λ k. window m t (suc k)) (omega arith)

  -- a slot lies inside the buffer
  pub slot_bounds : (i : ℕ) → i < nb → buffer + i * size + size ≤ buffer + nb * size
  slot_bounds i lt = grind arith

  slot-Apart : (i j : ℕ) → i ≢ j → Apart (buffer + i * size) size (buffer + j * size) size
  slot-Apart i j ne = elim (dec_lt i j) [
    | yes lt ↦ inl (grind arith)
    | no ge ↦ inr (let gt : j < i = omega arith in grind arith)
  ]

  pub window-frame :
      (m g : Memory) (t n : ℕ)
      → 0 < nb
      → ((a : ℕ) → buffer ≤ a → a < buffer + nb * size → g a ≡ m a)
      → window g t n ≡ window m t n
  window-frame m g t zero pos same = refl
  window-frame m g t (suc n) pos same =
      ap₂ ◌∷◌
        (bytes-frame m g (buffer + t % nb * size) size
          (λ a lo hi. same a (omega arith) (omega (arith, slot_bounds (t % nb) (mod-lt t pos)))))
        (window-frame m g ((t + 1) % 2 ^ 32) n pos same)

  add-mod-ne : {h k : ℕ} → h < nb → suc k < nb → (h + suc k) % nb ≢ h
  add-mod-ne {h} {k} hh hk = elim (dec_lt (h + suc k) nb) [
    | yes p ↦ omega (arith, mod-eq_of_lt p)
    | no p ↦ omega (
      arith,
      mod-eq-sub-mod {n = h + suc k} {m = nb} (omega arith),
      mod-eq_of_lt {n = h + suc k - nb} {m = nb} (omega arith),
    )
  ]

  index_ne : (t n : ℕ) → 0 < nb → suc n < nb → 2 ^ 32 % nb ≡ 0 → (t + suc n) % 2 ^ 32 % nb ≢ t % nb
  index_ne t n pos lt divides e = add-mod-ne (mod-lt t pos) lt (
      mod-add-mod t nb (suc n)
      ∙ sym (mod-mod_of_dvd nb (t + suc n) (dvd_of_mod-eq-zero nb divides))
      ∙ e)

  pub slot_source :
      (m : Memory) (source t : ℕ)
      → 0 < nb
      → Apart buffer (nb * size) source size
      → Apart (buffer + t % nb * size) size source size
  slot_source m source t pos (inl h) = inl (omega (arith, slot_bounds (t % nb) (mod-lt t pos)))
  slot_source m source t pos (inr h) = inr (omega arith)

  pub window-put :
      (m : Memory) (source t n h : ℕ)
      → 0 < nb
      → n < nb
      → t < 2 ^ 32
      → 2 ^ 32 % nb ≡ 0
      → Apart buffer (nb * size) source size
      → h ≡ (t + n) % 2 ^ 32
      → window (memcpy m (buffer + h % nb * size) source size) t (suc n)
        ≡ window m t n ++ (bytes m source size ∷ [])
  window-put m source t zero h pos lt small divides apart e =
      let same : h ≡ t = omega arith in
      rw same (
        ap (λ x. x ∷ [])
          (memcpy-copies m (buffer + t % nb * size) source size (slot_source m source t pos apart)))
  window-put m source t (suc n) h pos lt small divides apart e =
      ap₂ ◌∷◌
        (memcpy-frame m (buffer + h % nb * size) source size (buffer + t % nb * size) size
          (slot_source m source h pos apart)
          (slot-Apart (h % nb) (t % nb) (rw e (index_ne t n pos lt divides))))
        (window-put m source ((t + 1) % 2 ^ 32) n h pos (omega arith) (omega arith) divides apart
          (omega arith))
