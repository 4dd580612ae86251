-- ===== src/Cow/Writes.antt =====
-- A write through the copy-on-write view changes what the view shows exactly as `Ram` promises.
use fuzzsoft.Base.{
  ℕ, ◌+◌, ◌-◌, ◌/◌, ◌%◌, ◌≤◌, ◌<◌, ◌≡◌, ◌≢◌, sym, ap, ◌∙◌, ◌&&◌, inl, inr, List, [], ◌∷◌, length,
  get_or, set, ltb, leb, ◌==◌, if◌then◌else◌, arith, Bool-cases, get_or-set, length-set,
  length-splice, length-update_range, get_or-splice, get_or-update_range,
}
use fuzzsoft.Perm.{stored_perm}
use fuzzsoft.Ram.Laws.{
  Ram_ext, put_bytes, put_bytes_base, put_bytes_size, put_bytes_mem, put_bytes_perms,
}
use fuzzsoft.Cow.{CowRam, CowPage, contents, resolve, slot, sentinel}
use fuzzsoft.Cow.Bytes.{write_byte, write_span, edit_page}
use fuzzsoft.Cow.Invariant.{
  WellFormed, Ensured, ensure_page-Ensured, resolve-edited, edited-WellFormed,
}

-- A page that has an overlay is 4096 bytes long.
overlay_sizes :
    {c : CowRam} (w : WellFormed c) (pn : ℕ)
    → slot c pn ≢ sentinel
    → (length (resolve c pn).mem ≡ 4096) × (length (resolve c pn).perms ≡ 4096)
unfolding resolve
overlay_sizes {c} w pn over =
    ground (arith, w.slots pn, w.mem_sizes (slot c pn), w.perms_sizes (slot c pn))

-- The page of an offset inside the window is in the directory.
page_inside :
    {c : CowRam} (w : WellFormed c) (off : ℕ)
    → off < length c.golden.mem
    → off / 4096 < length c.dir
page_inside w off lt = omega (arith, w.dir_size)

-- An edit that stores `bs` at place `po` of a page.
record StoresAt (f : CowPage → CowPage) (po : ℕ) (bs : List ℕ) : Type 0 where
  mem_size : (page : CowPage) → length (f page).mem ≡ length page.mem
  perms_size : (page : CowPage) → length (f page).perms ≡ length page.perms
  mem_at :
      (page : CowPage) (j : ℕ)
      → po + length bs ≤ length page.mem
      → get_or (f page).mem j 0
        ≡ (if leb po j && ltb j (po + length bs) then get_or bs (j - po) 0 else get_or page.mem j 0)
  perms_at :
      (page : CowPage) (j : ℕ)
      → po + length bs ≤ length page.perms
      → get_or (f page).perms j 0 ≡ (
          if leb po j && ltb j (po + length bs)
          then stored_perm (get_or page.perms j 0)
          else get_or page.perms j 0)

-- What a store through the overlay of one page does.
pub record Stored (c : CowRam) (off : ℕ) (bs : List ℕ) (c' : CowRam) : Type 0 where
  pub valid : WellFormed c'
  pub shows : contents c' ≡ put_bytes (contents c) off bs

module _ {c : CowRam} (w : WellFormed c) (f : CowPage → CowPage) (off : ℕ) (bs : List ℕ)
    (stores : StoresAt f (off % 4096) bs) (inside : off < length c.golden.mem)
    (fit : off % 4096 + length bs ≤ 4096) where
  edit-Ensured :
      (idx : ℕ) (c' : CowRam)
      → Ensured c (off / 4096) idx c'
      → Stored c off bs (edit_page f (idx, c'))
  edit-Ensured idx c' e =
      let pn = off / 4096 in
      let over : slot c' pn ≢ sentinel = rw (e.slot_eq) (e.overlaid) in
      let sizes = overlay_sizes (e.valid) pn over in
      let shown = resolve-edited f pn (e.valid) over in
      let size_eq : length c'.golden.mem ≡ length c.golden.mem =
        ap (λ g. length g.mem) (e.golden_eq) in
      rw (← e.slot_eq) (record {
        valid = edited-WellFormed f pn (e.valid) over (stores.mem_size) (stores.perms_size);
        shows =
            Ram_ext _ _ (ap (λ g. g.base) (e.golden_eq) ∙ sym (put_bytes_base bs (contents c) off))
              (size_eq ∙ sym (put_bytes_size bs (contents c) off))
              (λ j. rw (shown (j / 4096)) (elim (Bool-cases (pn == j / 4096)) [
                | inl same ↦
                    let at : j / 4096 ≡ pn = ground arith in
                    let gap : j % 4096 - off % 4096 ≡ j - off = omega arith in
                    rw same (
                      ground (
                        arith,
                        stores.mem_at (resolve c' pn) (j % 4096),
                        e.mem_eq pn (j % 4096),
                        put_bytes_mem bs (contents c) off j,
                        ap (λ k. get_or bs k 0) gap,
                        ap (λ k. get_or (resolve c k).mem (j % 4096) 0) at,
                      ))
                | inr other ↦ rw other (
                    ground
                      (arith, e.mem_eq (j / 4096) (j % 4096), put_bytes_mem bs (contents c) off j))
              ]))
              (λ j. rw (shown (j / 4096)) (elim (Bool-cases (pn == j / 4096)) [
                | inl same ↦
                    let at : j / 4096 ≡ pn = ground arith in
                    let gap : j % 4096 - off % 4096 ≡ j - off = omega arith in
                    rw same (
                      ground (
                        arith,
                        stores.perms_at (resolve c' pn) (j % 4096),
                        e.perms_eq pn (j % 4096),
                        put_bytes_perms bs (contents c) off j,
                        ap (λ k. get_or bs k 0) gap,
                        ap (λ k. get_or (resolve c k).perms (j % 4096) 0) at,
                      ))
                | inr other ↦ rw other (
                    ground (
                      arith,
                      e.perms_eq (j / 4096) (j % 4096),
                      put_bytes_perms bs (contents c) off j,
                    ))
              ]));
      })

pub write_byte-Stored :
    {c : CowRam} (w : WellFormed c) (off b : ℕ)
    → off < length c.golden.mem
    → Stored c off (b ∷ []) (write_byte c off b)
unfolding write_byte
write_byte-Stored {c} w off b inside =
    edit-Ensured w _ off (b ∷ [])
      (record {
        mem_size = λ page. length-set page.mem (off % 4096) b;
        perms_size = λ page.
            length-set page.perms (off % 4096) (stored_perm (get_or page.perms (off % 4096) 0));
        mem_at = λ page j room. one_byte (off % 4096) j page.mem b (omega arith);
        perms_at = λ page j room. one_perm (off % 4096) j page.perms (omega arith);
      })
      inside (omega arith) _ _ (ensure_page-Ensured c (off / 4096) w (page_inside w off inside))
  where
    one_byte :
        (po j : ℕ) (xs : List ℕ) (v : ℕ)
        → po < length xs
        → get_or (set xs po v) j 0 ≡ (
            if leb po j && ltb j (po + length (v ∷ []))
            then get_or (v ∷ []) (j - po) 0
            else get_or xs j 0)
    one_byte po j xs v lt = elim (Bool-cases (po == j)) [
      | inl here ↦
          let zero_gap : j - po ≡ 0 = ground arith in
          rw zero_gap (ground (arith, get_or-set xs po j v 0))
      | inr there ↦ ground (arith, get_or-set xs po j v 0)
    ]

    one_perm :
        (po j : ℕ) (xs : List ℕ)
        → po < length xs
        → get_or (set xs po (stored_perm (get_or xs po 0))) j 0 ≡ (
            if leb po j && ltb j (po + length (b ∷ []))
            then stored_perm (get_or xs j 0)
            else get_or xs j 0)
    one_perm po j xs lt = elim (Bool-cases (po == j)) [
      | inl here ↦
          let e : po ≡ j = ground arith in
          rw e (ground (arith, get_or-set xs j j (stored_perm (get_or xs j 0)) 0))
      | inr there ↦ ground (arith, get_or-set xs po j (stored_perm (get_or xs po 0)) 0)
    ]

pub write_span-Stored :
    {c : CowRam} (w : WellFormed c) (off : ℕ) (bs : List ℕ)
    → off < length c.golden.mem
    → off % 4096 + length bs ≤ 4096
    → Stored c off bs (write_span c off bs)
unfolding write_span
write_span-Stored {c} w off bs inside fit =
    edit-Ensured w _ off bs
      (record {
        mem_size = λ page. length-splice bs page.mem (off % 4096);
        perms_size = λ page. length-update_range stored_perm (length bs) page.perms (off % 4096) 0;
        mem_at = λ page j room. get_or-splice bs page.mem (off % 4096) j 0 room;
        perms_at = λ page j room.
            get_or-update_range stored_perm (length bs) page.perms (off % 4096) j 0 room;
      })
      inside fit _ _ (ensure_page-Ensured c (off / 4096) w (page_inside w off inside))
