-- ===== src/Platform/Smp/Reservations.antt =====
-- Load reservations across harts: the spans that a turn lists take the reservations of the others
-- (crates/fs-platform/src/lib.rs).
use fuzzsoft.Base.{
  ℕ, zero, suc, ◌+◌, ◌<◌, ◌≡◌, refl, ap, ◌∙◌, Bool, true, false, not, ◌&&◌, Option, none, some,
  List, [], ◌∷◌, length, get_or, set, all, ltb, leb, ◌==◌, if◌then◌else◌, arith, length-set,
}
use fuzzsoft.Riscv.Cpu.{Cpu, invalidate_reservation}
use fuzzsoft.Platform.Smp.{Turn, Smp, hart, after_turn, invalidate_others, invalidate_all}

-- A reservation that lies in the span `(addr, len)`.
abbrev pub overlaps : Option ℕ → ℕ × ℕ → Bool
overlaps none (addr, len) = false
overlaps (some r) (addr, len) = leb addr r && ltb r (addr + len)

invalidate-cases :
    (c : Cpu) (addr len : ℕ) (w : ℕ × ℕ)
    → overlaps (invalidate_reservation c addr len).reservation w
      ≡ (overlaps c.reservation w && not (overlaps c.reservation (addr, len)))
unfolding invalidate_reservation
invalidate-cases c addr len (a, l) = ground arith

length-invalidate_others :
    (cs : List Cpu) (h addr len j : ℕ) → length (invalidate_others h addr len j cs) ≡ length cs
unfolding invalidate_others
length-invalidate_others [] h addr len j = refl
length-invalidate_others (c ∷ cs) h addr len j =
    ap suc (length-invalidate_others cs h addr len (j + 1))

get_or-invalidate_others :
    (cs : List Cpu) (h addr len j i : ℕ) (d : Cpu)
    → i < length cs
    → get_or (invalidate_others h addr len j cs) i d
      ≡ (if j + i == h then get_or cs i d else invalidate_reservation (get_or cs i d) addr len)
unfolding invalidate_others
get_or-invalidate_others [] h addr len j i d inside = absurd (omega arith)
get_or-invalidate_others (c ∷ cs) h addr len j zero d inside = ground arith
get_or-invalidate_others (c ∷ cs) h addr len j (suc i) d inside =
    let same : j + 1 + i ≡ j + suc i = omega arith in
    get_or-invalidate_others cs h addr len (j + 1) i d (omega arith)
    ∙ ap (λ k. if k == h then get_or cs i d else invalidate_reservation (get_or cs i d) addr len)
        same

module _ (h i : ℕ) (other : (i == h) ≡ false) (d : Cpu) where
  other_at :
      (addr len : ℕ) (cs : List Cpu)
      → i < length cs
      → get_or (invalidate_others h addr len 0 cs) i d
        ≡ invalidate_reservation (get_or cs i d) addr len
  other_at addr len cs inside =
      let off : (0 + i == h) ≡ false = ground (arith, other) in
      get_or-invalidate_others cs h addr len 0 i d inside
      ∙ ap (λ b. if b then get_or cs i d else invalidate_reservation (get_or cs i d) addr len) off

  -- A span that a hart has no reservation in stays one.
  stays_clear :
      (ws : List (ℕ × ℕ)) (cs : List Cpu) (w : ℕ × ℕ)
      → i < length cs
      → overlaps (get_or cs i d).reservation w ≡ false
      → overlaps (get_or (invalidate_all h ws cs) i d).reservation w ≡ false
  unfolding invalidate_all
  stays_clear [] cs w inside clear = clear
  stays_clear ((addr, len) ∷ ws) cs w inside clear =
      let now = other_at addr len cs inside in
      stays_clear ws (invalidate_others h addr len 0 cs) w
        (rw (length-invalidate_others cs h addr len 0) inside)
        (ap (λ c. overlaps c.reservation w) now
          ∙ invalidate-cases (get_or cs i d) addr len w
          ∙ ap (λ b. b && not (overlaps (get_or cs i d).reservation (addr, len))) clear)

  cleared :
      (addr len : ℕ) (cs : List Cpu)
      → i < length cs
      → overlaps (get_or (invalidate_others h addr len 0 cs) i d).reservation (addr, len) ≡ false
  cleared addr len cs inside =
      ap (λ c. overlaps c.reservation (addr, len)) (other_at addr len cs inside)
      ∙ invalidate-cases (get_or cs i d) addr len (addr, len)
      ∙ (ground arith)

  clears :
      (ws : List (ℕ × ℕ)) (cs : List Cpu)
      → i < length cs
      → all (λ w. not (overlaps (get_or (invalidate_all h ws cs) i d).reservation w)) ws ≡ true
  unfolding invalidate_all
  clears [] cs inside = refl
  clears ((addr, len) ∷ ws) cs inside =
      let next = invalidate_others h addr len 0 cs in
      let size = length-invalidate_others cs h addr len 0 in
      let room : i < length next = omega (arith, size) in
      rw (stays_clear ws next (addr, len) room (cleared addr len cs inside)) (clears ws next room)

-- After a turn no other hart holds a reservation whose address lies in a span that the turn lists.
pub after_turn-reservations :
    (h i : ℕ) (s : Smp) (t : Turn)
    → i < length s.cpus
    → (i == h) ≡ false
    → all (λ w. not (overlaps (hart (after_turn h s t) i).reservation w)) t.rec.writes ≡ true
after_turn-reservations h i s t inside other =
    clears h i other _ t.rec.writes (set s.cpus h t.cpu) (rw (length-set s.cpus h t.cpu) inside)
