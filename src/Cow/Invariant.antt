-- ===== src/Cow/Invariant.antt =====
-- The page directory of a copy-on-write view: what it maintains, and what a first write and an
-- edit of a page do to the view.
use fuzzsoft.Base.{
  ℕ, zero, suc, ◌+◌, ◌-◌, ◌*◌, ◌^◌, ◌≤◌, ◌<◌, ◌≡◌, ◌≢◌, refl, ap, ◌∙◌, Bool, true, false, inl, inr,
  List, [], ◌∷◌, ◌++◌, length, get_or, set, replicate, splice, min, ◌==◌, ◌||◌, if◌then◌else◌,
  arith, Bool-cases, length-append_one, get_or-append_one, get_or_outside, length-set, get_or-set,
  get_or-splice, length-slice, length-splice, length-replicate, get_or-replicate,
}
use fuzzsoft.Fault.{u32}
use fuzzsoft.Golden.{Golden, page_mem, page_perms, num_pages}
use fuzzsoft.Cow.{CowRam, CowPage, sentinel, slot, resolve, blank_page, golden_page, ensure_page}
use fuzzsoft.Cow.Bytes.{edit_page}

abbrev pub listed : List ℕ → ℕ → Bool
listed [] p = false
listed (q ∷ qs) p = q == p || listed qs p

-- How many pages have an overlay.
abbrev pub overlays : List ℕ → ℕ
overlays [] = 0
overlays (s ∷ dir) = if s == sentinel then overlays dir else suc (overlays dir)

pub record WellFormed (c : CowRam) : Type 0 where
  pub planes : length c.golden.perms ≡ length c.golden.mem
  pub fits : c.golden.base + length c.golden.mem ≤ 2 ^ 32
  pub dir_size : length c.dir ≡ num_pages c.golden
  pub slots : (p : ℕ) → slot c p ≢ sentinel → slot c p < length c.pages
  pub distinct : (p q : ℕ) → slot c p ≢ sentinel → slot c p ≡ slot c q → p ≡ q
  pub mem_sizes : (i : ℕ) → i < length c.pages → length (get_or c.pages i blank_page).mem ≡ 4096
  pub perms_sizes : (i : ℕ) → i < length c.pages → length (get_or c.pages i blank_page).perms ≡ 4096
  pub counted : length c.pages ≡ overlays c.dir
  pub dirty_listed : (p : ℕ) → slot c p ≢ sentinel → listed c.dirty p ≡ true

pub listed-append : (bs : List ℕ) (b c : ℕ) → listed (bs ++ (b ∷ [])) c ≡ b == c || listed bs c
listed-append [] b c = refl
listed-append (x ∷ bs) b c = ground (arith, listed-append bs b c)

overlays-le : (dir : List ℕ) → overlays dir ≤ length dir
overlays-le [] = omega arith
overlays-le (s ∷ dir) = ground (arith, overlays-le dir)

-- A page that gets an overlay is one more.
overlays-set :
    (dir : List ℕ) (p s : ℕ)
    → p < length dir
    → get_or dir p sentinel ≡ sentinel
    → s ≢ sentinel
    → overlays (set dir p s) ≡ suc (overlays dir)
unfolding set
overlays-set [] p s inside free new = absurd (omega arith)
overlays-set (t ∷ dir) zero s inside free new = ground arith
overlays-set (t ∷ dir) (suc p) s inside free new =
    ground (arith, overlays-set dir p s (omega arith) free new)

-- A page that is filled from the front of a zeroed one.
filled-page :
    (ys : List ℕ) (i : ℕ)
    → length ys ≤ 4096
    → get_or (splice (replicate 4096 0) 0 ys) i 0 ≡ get_or ys i 0
filled-page ys i room =
    let same : i - 0 ≡ i = omega arith in
    get_or-splice ys (replicate 4096 0) 0 i 0 (rw length-replicate (omega arith))
    ∙ ground (
      arith,
      get_or-replicate {A = ℕ} 4096 i 0,
      get_or_outside ys i 0,
      ap (λ k. get_or ys k 0) same,
    )

golden_page_mem :
    (g : Golden) (pn i : ℕ) → get_or (golden_page g pn).mem i 0 ≡ get_or (page_mem g pn) i 0
unfolding golden_page blank_page page_mem
golden_page_mem g pn i = filled-page (page_mem g pn) i (
    omega
      (arith, length-slice g.mem (pn * 4096) (min (pn * 4096 + 4096) (length g.mem) - pn * 4096) 0))

golden_page_perms :
    (g : Golden) (pn i : ℕ) → get_or (golden_page g pn).perms i 0 ≡ get_or (page_perms g pn) i 0
unfolding golden_page blank_page page_perms
golden_page_perms g pn i = filled-page (page_perms g pn) i (
    omega (
      arith,
      length-slice g.perms (pn * 4096) (min (pn * 4096 + 4096) (length g.perms) - pn * 4096) 0,
    ))

golden_page_size :
    (g : Golden) (pn : ℕ)
    → (length (golden_page g pn).mem ≡ 4096) × (length (golden_page g pn).perms ≡ 4096)
unfolding golden_page blank_page
golden_page_size g pn = (
  length-splice (page_mem g pn) (replicate 4096 0) 0 ∙ length-replicate 4096 0,
  length-splice (page_perms g pn) (replicate 4096 0) 0 ∙ length-replicate 4096 0,
)

-- Making an overlay for a page without one.
module _ {c : CowRam} (w : WellFormed c) (pn : ℕ) (inside : pn < length c.dir)
    (free : slot c pn ≡ sentinel) where
  pages_fit : length c.pages < sentinel
  pages_fit = omega (
    arith,
    w.counted,
    w.dir_size,
    w.fits,
    overlays-set c.dir pn 0 inside free (omega arith),
    overlays-le (set c.dir pn 0),
    length-set {0} c.dir pn 0,
  )

  index_eq : u32 (length c.pages) ≡ length c.pages
  index_eq = omega (arith, pages_fit)

  abbrev made : CowRam
  made = record c {
    dir = set c.dir pn (u32 (length c.pages));
    pages = c.pages ++ (golden_page c.golden pn ∷ []);
    dirty = c.dirty ++ (u32 pn ∷ []);
  }

  slot-made : (p : ℕ) → slot made p ≡ (if pn == p then length c.pages else slot c p)
  slot-made p = ground (arith, get_or-set c.dir pn p (u32 (length c.pages)) sentinel, index_eq)

  page-made :
      (i : ℕ)
      → get_or made.pages i blank_page
        ≡ (if i == length c.pages then golden_page c.golden pn else get_or c.pages i blank_page)
  page-made i = get_or-append_one c.pages (golden_page c.golden pn) i blank_page

  made-WellFormed : WellFormed made
  made-WellFormed = record {
    planes = w.planes;
    fits = w.fits;
    dir_size = length-set c.dir pn (u32 (length c.pages)) ∙ w.dir_size;
    slots = λ p.
        ground
          (arith, slot-made p, w.slots p, length-append_one {0} c.pages (golden_page c.golden pn));
    distinct = λ p q.
        ground (arith, slot-made p, slot-made q, w.distinct p q, w.slots p, w.slots q, pages_fit);
    mem_sizes = λ i. ground (
      arith,
      page-made i,
      w.mem_sizes i,
      golden_page_size c.golden pn,
      length-append_one {0} c.pages (golden_page c.golden pn),
    );
    perms_sizes = λ i. ground (
      arith,
      page-made i,
      w.perms_sizes i,
      golden_page_size c.golden pn,
      length-append_one {0} c.pages (golden_page c.golden pn),
    );
    counted = omega (
      arith,
      length-append_one {0} c.pages (golden_page c.golden pn),
      w.counted,
      overlays-set c.dir pn (u32 (length c.pages)) inside free (omega (arith, index_eq, pages_fit)),
    );
    dirty_listed =
        λ p. ground (arith, slot-made p, w.dirty_listed p, listed-append c.dirty (u32 pn) p, small);
  }
    where
      small : u32 pn ≡ pn
      small = omega (arith, w.fits, w.dir_size)

  resolve-made_mem : (p i : ℕ) → get_or (resolve made p).mem i 0 ≡ get_or (resolve c p).mem i 0
  unfolding resolve
  resolve-made_mem p i = ground (
    arith,
    slot-made p,
    page-made (slot made p),
    w.slots p,
    pages_fit,
    golden_page_mem c.golden pn i,
    free,
  )

  resolve-made_perms :
      (p i : ℕ) → get_or (resolve made p).perms i 0 ≡ get_or (resolve c p).perms i 0
  unfolding resolve
  resolve-made_perms p i = ground (
    arith,
    slot-made p,
    page-made (slot made p),
    w.slots p,
    pages_fit,
    golden_page_perms c.golden pn i,
    free,
  )

-- What `ensure_page` gives: an overlay for the page, and no change in what the view shows.
pub record Ensured (c : CowRam) (pn idx : ℕ) (c' : CowRam) : Type 0 where
  pub valid : WellFormed c'
  pub slot_eq : slot c' pn ≡ idx
  pub overlaid : idx ≢ sentinel
  pub golden_eq : c'.golden ≡ c.golden
  pub dir_eq : length c'.dir ≡ length c.dir
  pub mem_eq : (p i : ℕ) → get_or (resolve c' p).mem i 0 ≡ get_or (resolve c p).mem i 0
  pub perms_eq : (p i : ℕ) → get_or (resolve c' p).perms i 0 ≡ get_or (resolve c p).perms i 0

pub ensure_page-Ensured :
    (c : CowRam) (pn : ℕ)
    → WellFormed c
    → pn < length c.dir
    → Ensured c pn (ensure_page c pn).0 (ensure_page c pn).1
unfolding ensure_page
ensure_page-Ensured c pn w inside = elim (Bool-cases (slot c pn == sentinel)) [
  | inl free ↦
      let e : slot c pn ≡ sentinel = ground arith in
      rw (free, ensure_page)
        (record {
          valid = made-WellFormed w pn inside e;
          slot_eq = ground (arith, slot-made w pn inside e pn);
          overlaid = omega (arith, pages_fit w pn inside e);
          golden_eq = refl;
          dir_eq = length-set c.dir pn (u32 (length c.pages));
          mem_eq = resolve-made_mem w pn inside e;
          perms_eq = resolve-made_perms w pn inside e;
        })
  | inr kept ↦
      rw (kept, ensure_page)
        (record {
          valid = w;
          slot_eq = refl;
          overlaid = ground arith;
          golden_eq = refl;
          dir_eq = refl;
          mem_eq = λ p i. refl;
          perms_eq = λ p i. refl;
        })
]

-- Editing the overlay of one page.
module _ {c : CowRam} (f : CowPage → CowPage) (pn : ℕ) (w : WellFormed c)
    (overlaid : slot c pn ≢ sentinel) where
  abbrev edited : CowRam
  edited = edit_page f (slot c pn, c)

  page-edited :
      (i : ℕ)
      → get_or edited.pages i blank_page ≡ (
          if slot c pn == i
          then f (get_or c.pages (slot c pn) blank_page)
          else get_or c.pages i blank_page)
  page-edited i = ground (
    arith,
    get_or-set c.pages (slot c pn) i (f (get_or c.pages (slot c pn) blank_page)) blank_page,
    w.slots pn,
  )

  pub resolve-edited :
      (p : ℕ) → resolve edited p ≡ (if pn == p then f (resolve c pn) else resolve c p)
  unfolding resolve
  resolve-edited p = ground (arith, page-edited (slot c p), w.distinct pn p)

  module _ (keeps_mem : (page : CowPage) → length (f page).mem ≡ length page.mem)
      (keeps_perms : (page : CowPage) → length (f page).perms ≡ length page.perms) where
    pub edited-WellFormed : WellFormed edited
    edited-WellFormed =
        let page = get_or c.pages (slot c pn) blank_page in
        let len = length-set c.pages (slot c pn) (f page) in
        record {
          planes = w.planes;
          fits = w.fits;
          dir_size = w.dir_size;
          slots = λ p h. rw len (w.slots p h);
          distinct = w.distinct;
          mem_sizes = λ i. ground (arith, len, page-edited i, w.mem_sizes i, keeps_mem page);
          perms_sizes = λ i. ground (arith, len, page-edited i, w.perms_sizes i, keeps_perms page);
          counted = len ∙ w.counted;
          dirty_listed = w.dirty_listed;
        }
