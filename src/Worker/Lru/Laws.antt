-- ===== src/Worker/Lru/Laws.antt =====
-- The linked list, the map and the size of the LRU agree, and the oldest entry goes first.
use s19_lambda.Base.{
  ℕ, ◌+◌, ◌<◌, ◌≡◌, refl, ap, Bool, true, false, some, List, ◌∷◌, ◌∙◌, arith, count, erase, back,
  sum_of, sum_of_ext, sum_of-erase, sum_of-init_of, count-erase, count-init_of, count-back, update,
}
use s19_lambda.Base.Int.{ℤ, pos, pos_add, pos_sub, ◌-ℤ◌}
use s19_lambda.Worker.Handlers.{Handler, Store}
use s19_lambda.Worker.Lru.{HandlerLru, new_handler_lru, added, remove, popped}

abbrev pub flag : Bool → ℕ
flag true = 1
flag false = 0

unfoldable pub usages : Store → List ℕ → ℕ
usages store = sum_of (λ h. (store h).usage)

-- Every handler of the map stands once in the list and no other does, and the size is the sum of
-- the usages of the listed handlers.
pub record IsConsistent (store : Store) (lru : HandlerLru) : Type 0 where
  pub counted : (h : ℕ) → count h lru.hqueue ≡ flag (lru.hmap h)
  pub sized : lru.size ≡ pos (usages store lru.hqueue)

pub new_handler_lru-IsConsistent :
    (store : Store) (kb : ℕ) → IsConsistent store (new_handler_lru kb)
unfolding new_handler_lru count sum_of usages
new_handler_lru-IsConsistent store kb = record { counted = λ h. refl; sized = refl }

usages_cons :
    (store : Store) (h : ℕ) (l : List ℕ) → usages store (h ∷ l) ≡ (store h).usage + usages store l
unfolding usages sum_of
usages_cons store h l = refl

pub usages_ext :
    (s t : Store) (l : List ℕ)
    → ((k : ℕ) → 0 < count k l → (s k).usage ≡ (t k).usage)
    → usages s l ≡ usages t l
unfolding usages
usages_ext s t l h = sum_of_ext (λ k. (s k).usage) (λ k. (t k).usage) l h

usages-update_new :
    (h : ℕ) (x : Handler) (store : Store) (l : List ℕ)
    → count h l ≡ 0
    → usages (update store h x) l ≡ usages store l
usages-update_new h x store l e = usages_ext (update store h x) store l (λ k m. ground arith)

-- The size is about the usages alone.
pub IsConsistent-same_usages :
    {s t : Store} {lru : HandlerLru}
    → ((k : ℕ) → (s k).usage ≡ (t k).usage)
    → IsConsistent s lru
    → IsConsistent t lru
IsConsistent-same_usages {s} {t} {lru} h c = record {
  counted = c.counted;
  sized = c.sized ∙ ap pos (usages_ext s t lru.hqueue (λ k _. h k));
}

pub IsConsistent-update_absent :
    (h : ℕ) (x : Handler) {store : Store} {lru : HandlerLru}
    → lru.hmap h ≡ false
    → IsConsistent store lru
    → IsConsistent (update store h x) lru
IsConsistent-update_absent h x {store} {lru} new c = record {
  counted = c.counted;
  sized = rw (usages-update_new h x store lru.hqueue (ground (arith, c.counted h))) c.sized;
}

-- A handler that keeps its usage may change otherwise.
pub IsConsistent-update_same :
    (h : ℕ) (x : Handler) {store : Store} {lru : HandlerLru}
    → x.usage ≡ (store h).usage
    → IsConsistent store lru
    → IsConsistent (update store h x) lru
IsConsistent-update_same h x {store} e = IsConsistent-same_usages (λ k. ground arith)

pub added-IsConsistent :
    (h usage now : ℕ) (store : Store) (lru : HandlerLru)
    → IsConsistent store lru
    → lru.hmap h ≡ false
    → let (store', lru', _) = added h usage now (store, lru) in IsConsistent store' lru'
unfolding added count
added-IsConsistent h usage now store lru c new = record {
  counted = λ k. ground (arith, c.counted k);
  sized =
      rw (c.sized, pos_add, usages_cons)
        (ap pos (
          ground (
            arith,
            usages-update_new h (record (store h) { usage = usage }) store lru.hqueue
                (ground (arith, c.counted h)),
          )));
}

size-erase :
    (size : ℤ) (h : ℕ) (store : Store) (l : List ℕ)
    → size ≡ pos (usages store l)
    → 0 < count h l
    → size -ℤ pos (store h).usage ≡ pos (usages store (erase h l))
unfolding usages
size-erase size h store l e m =
    rw (e, ← sum_of-erase (λ k. (store k).usage) h l m) (pos_sub _ (store h).usage)

pub remove-IsConsistent :
    (h : ℕ) (store : Store) (lru : HandlerLru)
    → IsConsistent store lru
    → lru.hmap h ≡ true
    → IsConsistent store (remove h store lru)
unfolding remove
remove-IsConsistent h store lru c present = record {
  counted = λ k. ground (arith, c.counted k, count-erase h k lru.hqueue);
  sized = rw present (size-erase lru.size h store lru.hqueue c.sized (ground (arith, c.counted h)));
}

pub popped-IsConsistent :
    (h : ℕ) (store : Store) (lru : HandlerLru)
    → IsConsistent store lru
    → back lru.hqueue ≡ some h
    → IsConsistent store (popped h store lru)
unfolding popped usages
popped-IsConsistent h store lru c last = record {
  counted = λ k.
      ground
        (arith, c.counted k, c.counted h, count-init_of k h lru.hqueue, count-back h lru.hqueue);
  sized =
      rw (c.sized, ← sum_of-init_of (λ k. (store k).usage) h lru.hqueue last)
        (pos_sub _ (store h).usage);
}
