-- ===== src/Queue/Fifo.antt =====
-- The queue of connections and the free list of thread.c against lists.
use log_memcached.Base.{
  ℕ, zero, suc, ◌+◌, ◌-◌, ◌<◌, ◌≡◌, ◌≢◌, refl, sym, ap, ◌∙◌, Option, none, some, List, [], ◌∷◌,
  ◌++◌, arith, Option-cases, inl, inr,
}
use mathlib.Core.Path.{subst}
use log_memcached.Base.Memory.{Memory, store}
use log_memcached.Queue.{Cq, cq_pop, cq_push, FreeItems, cqi_free, link_items, cqi_new}

-- The items of the list stand one behind the other, from a pointer on.
unfoldable pub Linked : Memory (Option ℕ) → Option ℕ → List ℕ → Type 0
Linked next p [] = p ≡ none
Linked next p (x ∷ xs) = (p ≡ some x) × Linked next (next x) xs

unfoldable pub IsOutside : ℕ → List ℕ → Type 0
IsOutside x [] = Unit {0}
IsOutside x (y ∷ ys) = (x ≢ y) × IsOutside x ys

unfoldable pub IsDistinct : List ℕ → Type 0
IsDistinct [] = Unit {0}
IsDistinct (x ∷ xs) = IsOutside x xs × IsDistinct xs

unfoldable pub last : List ℕ → Option ℕ
last [] = none
last (x ∷ xs) = elim (last xs) [ none ↦ some x | some y ↦ some y ]

-- The queue holds the items of the list, in that order.
pub record Holds (q : Cq) (xs : List ℕ) : Type 0 where
  pub items : Linked q.next q.head xs
  pub ends : q.tail ≡ last xs
  pub distinct : IsDistinct xs

last_outside : (x t : ℕ) (xs : List ℕ) → IsOutside x xs → last xs ≡ some t → x ≢ t
unfolding IsOutside last
last_outside x t [] o e = cc
last_outside x t (y ∷ ys) o e = elim (Option-cases (last ys)) [
  | inl none_left ↦ ground (arith, o.0, none_left, e)
  | inr (z, at) ↦
      let same : z ≡ t = ground (arith, at, e) in last_outside x t ys o.1 (at ∙ ap some same)
]

last_tail : (x y t : ℕ) (ys : List ℕ) → last (x ∷ y ∷ ys) ≡ some t → last (y ∷ ys) ≡ some t
unfolding last
last_tail x y t ys e = ground arith

push-Linked :
    (next : Memory (Option ℕ)) (item t x : ℕ) (xs : List ℕ) (p : Option ℕ)
    → Linked next p (x ∷ xs)
    → IsDistinct (x ∷ xs)
    → IsOutside item (x ∷ xs)
    → last (x ∷ xs) ≡ some t
    → Linked (store (store next item none) t (some item)) p ((x ∷ xs) ++ item ∷ [])
unfolding Linked IsOutside IsDistinct
push-Linked next item t x [] p l d o e =
    let same : x ≡ t = unfold last in ground (arith, e) in
    (l.0, (ground (arith, o.0, same), ground (arith, o.0, same)))
push-Linked next item t x (y ∷ ys) p l d o e =
    let e' = last_tail x y t ys e in
    let away : x ≢ t = last_outside x t (y ∷ ys) d.0 e' in
    let rest = push-Linked next item t y ys (next x) l.1 d.1 o.1 e' in
    (l.0, (ground (arith, o.0, away, l.1.0), rest.1))

last-append : (item : ℕ) (xs : List ℕ) → last (xs ++ item ∷ []) ≡ some item
unfolding last
last-append item [] = refl
last-append item (x ∷ xs) = rw (last-append item xs) refl

IsOutside-append :
    (x item : ℕ) (xs : List ℕ) → IsOutside x xs → x ≢ item → IsOutside x (xs ++ item ∷ [])
unfolding IsOutside
IsOutside-append x item [] o ne = (ne, tt)
IsOutside-append x item (y ∷ ys) o ne = (o.0, IsOutside-append x item ys o.1 ne)

IsDistinct-append :
    (item : ℕ) (xs : List ℕ) → IsDistinct xs → IsOutside item xs → IsDistinct (xs ++ item ∷ [])
unfolding IsDistinct IsOutside
IsDistinct-append item [] d o = (tt, tt)
IsDistinct-append item (x ∷ xs) d o =
    (IsOutside-append x item xs d.0 (λ e. o.0 (sym e)), IsDistinct-append item xs d.1 o.1)

last_cons : (x : ℕ) (xs : List ℕ) → (t : ℕ) × (last (x ∷ xs) ≡ some t)
unfolding last
last_cons x xs = elim (Option-cases (last xs)) [
  | inl none_left ↦ (x, ground (arith, none_left))
  | inr (t, at) ↦ (t, ground (arith, at))
]

-- cq_push onto a queue that holds a list of distinct items, of an item outside it, gives a queue
-- that holds the list followed by the item.
pub cq_push-Holds :
    (q : Cq) (item : ℕ) (xs : List ℕ)
    → Holds q xs
    → IsOutside item xs
    → Holds (cq_push q item) (xs ++ item ∷ [])
unfolding cq_push
cq_push-Holds q item [] h o =
    let empty : q.tail ≡ none = h.ends ∙ unfold last in refl in
    record {
      items = unfold Linked in ground (arith, empty);
      ends = unfold last in ground (arith, empty);
      distinct = unfold IsDistinct IsOutside in (tt, tt);
    }
cq_push-Holds q item (x ∷ xs) h o =
    let (t, at) = last_cons x xs in
    let tail : q.tail ≡ some t = h.ends ∙ at in
    record {
      items = rw tail (push-Linked q.next item t x xs q.head h.items h.distinct o at);
      ends = rw tail (sym (last-append item (x ∷ xs)));
      distinct = IsDistinct-append item (x ∷ xs) h.distinct o;
    }

-- cq_pop from a queue that holds a list with a first item returns that item and leaves a queue
-- that holds the rest.
pub cq_pop-Holds :
    (q : Cq) (x : ℕ) (xs : List ℕ)
    → Holds q (x ∷ xs)
    → ((cq_pop q).0 ≡ some x) × Holds (cq_pop q).1 xs
unfolding cq_pop Linked IsDistinct last
cq_pop-Holds q x [] h = (
  ground (arith, h.items.0),
  record {
    items = ground (arith, h.items.0, h.items.1);
    ends = ground (arith, h.items.0, h.items.1);
    distinct = tt;
  },
)
cq_pop-Holds q x (y ∷ ys) h =
    let next : (cq_pop q).1.next ≡ q.next = ground arith in
    let tail : (cq_pop q).1.tail ≡ q.tail = ground (arith, h.items.0, h.items.1.0) in
    (
      ground (arith, h.items.0),
      record {
        items = (
          ground (arith, h.items.0, h.items.1.0),
          subst (λ (n : Memory (Option ℕ)). Linked n (n y) ys) (sym next) h.items.1.1,
        );
        ends = tail ∙ h.ends ∙ ground arith;
        distinct = h.distinct.1;
      },
    )

-- An item that cqi_free has given back is what the next cqi_new returns, and the free list begins
-- with what it began with before.
pub cqi_free-cqi_new :
    (block : Option ℕ) (f : FreeItems) (item : ℕ)
    → ((cqi_new block (cqi_free f item)).0 ≡ some item)
      × ((cqi_new block (cqi_free f item)).1.freelist ≡ f.freelist)
unfolding cqi_new cqi_free
cqi_free-cqi_new block f item = (refl, ground arith)

-- the `n` numbers from `p` on
pub row : ℕ → ℕ → List ℕ
row zero p = []
row (suc n) p = p ∷ row n (p + 1)

link_items_before : (n p q : ℕ) (next : Memory (Option ℕ)) → q < p → link_items n p next q ≡ next q
unfolding link_items
link_items_before zero p q next lt = refl
link_items_before (suc n) p q next lt =
    link_items_before n (p + 1) q (store next p (some (p + 1))) (omega arith) ∙ ground arith

link_items-row :
    (n p : ℕ) (next : Memory (Option ℕ))
    → Linked (store (link_items n p next) (p + n) none) (some p) (row (suc n) p)
unfolding link_items Linked row
link_items-row zero p next = (refl, ground arith)
link_items-row (suc n) p next =
    let next₁ = store next p (some (p + 1)) in
    let at : store (link_items n (p + 1) next₁) (p + suc n) none p ≡ some (p + 1) =
      ground (arith, link_items_before n (p + 1) p next₁) in
    let rest = link_items-row n (p + 1) next₁ in
    let same : p + 1 + n ≡ p + suc n = omega arith in
    let linked : Linked (store (link_items n (p + 1) next₁) (p + suc n) none) (some (p + 1))
        (row (suc n) (p + 1)) =
      subst
        (λ (x : ℕ).
          Linked (store (link_items n (p + 1) next₁) x none) (some (p + 1)) (row (suc n) (p + 1)))
        same rest in
    (
      refl,
      subst
          (λ (h : Option ℕ).
            Linked (store (link_items n (p + 1) next₁) (p + suc n) none) h (row (suc n) (p + 1)))
          (sym at) linked,
    )

-- With no free items, cqi_new returns the first item of the block that malloc gives, and the free
-- list then holds the other 63 in the order of their addresses.
pub cqi_new-Linked :
    (f : FreeItems) (first : ℕ)
    → f.freelist ≡ none
    → ((cqi_new (some first) f).0 ≡ some first)
      × Linked
          (cqi_new (some first) f).1.next
          (cqi_new (some first) f).1.freelist
          (row 63 (first + 1))
unfolding cqi_new
cqi_new-Linked f first none_free =
    let same : first + 1 + 62 ≡ first + 64 - 1 = omega arith in
    let at : cqi_new (some first) f ≡ (
      some first,
      record {
        freelist = some (first + 1);
        next = store (link_items 62 (first + 1) f.next) (first + 64 - 1) none;
      },
    ) =
      ground (arith, none_free) in
    (
      ap (λ r. r.0) at,
      subst (λ (r : Option ℕ × FreeItems). Linked r.1.next r.1.freelist (row 63 (first + 1)))
          (sym at)
          (subst
            (λ (x : ℕ).
              Linked (store (link_items 62 (first + 1) f.next) x none) (some (first + 1))
                (row 63 (first + 1)))
            same (link_items-row 62 (first + 1) f.next)),
    )
