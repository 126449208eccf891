-- ===== src/Chasing/Trail.antt =====
-- The invariant of the `for` loop of `init_chasing_index` (OptaneStudy/src/memaccess.c).
use rw_sep.Prelude.{
  ℕ, ◌<◌, ◌≡◌, ◌≢◌, sym, ap, ◌∙◌, some, List, [], ◌∷◌, All, length, get_elem?, set,
  get_elem?-set_self, get_elem?-set_ne, length-set, arith,
}
use rw_sep.Chasing.Cycle.{NotIn, Distinct, Links, IsCycle}

-- A partial index: the trail so far, from `curr_pos` backwards. Positions that were left hold a
-- successor, which is never 0; all others hold 0.
pub record IsTrail (csize : ℕ) (cindex : List ℕ) (curr_pos : ℕ) (prev : List ℕ) : Type 0 where
  pub size : length cindex ≡ csize
  pub links : Links cindex (curr_pos ∷ prev)
  pub distinct : Distinct (curr_pos ∷ prev)
  pub in_range : All (λ x. x < csize) (curr_pos ∷ prev)
  pub linked : All (λ x. get_elem? cindex x ≢ some 0) prev
  pub fresh : (x : ℕ) → x < csize → NotIn x prev → get_elem? cindex x ≡ some 0

not-in_of_fresh :
    (cindex : List ℕ) (x : ℕ) (prev : List ℕ)
    → All (λ y. get_elem? cindex y ≢ some 0) prev
    → get_elem? cindex x ≡ some 0
    → NotIn x prev
not-in_of_fresh cindex x [] linked h = tt
not-in_of_fresh cindex x (y ∷ prev) linked h =
    (λ e. linked.0 (ap (get_elem? cindex) (sym e) ∙ h), not-in_of_fresh cindex x prev linked.1 h)

-- The trail begins at 0, so a position off the trail is not 0.
ne-zero_of_not-in :
    (cindex : List ℕ) (x y : ℕ) (prev : List ℕ)
    → Links cindex (y ∷ prev)
    → NotIn x (y ∷ prev)
    → x ≢ 0
ne-zero_of_not-in cindex x y [] links out = λ e. out.0 (e ∙ sym links)
ne-zero_of_not-in cindex x y (z ∷ prev) links out = ne-zero_of_not-in cindex x z prev links.1 out.1

Links-set :
    (cindex : List ℕ) (c v y : ℕ) (prev : List ℕ)
    → NotIn c prev
    → Links cindex (y ∷ prev)
    → Links (set cindex c v) (y ∷ prev)
Links-set cindex c v y [] out links = links
Links-set cindex c v y (x ∷ prev) out links =
    (get_elem?-set_ne cindex c x v out.0 ∙ links.0, Links-set cindex c v x prev out.1 links.1)

linked-set :
    (cindex : List ℕ) (c v : ℕ) (prev : List ℕ)
    → NotIn c prev
    → All (λ x. get_elem? cindex x ≢ some 0) prev
    → All (λ x. get_elem? (set cindex c v) x ≢ some 0) prev
linked-set cindex c v [] out h = tt
linked-set cindex c v (x ∷ prev) out h =
    (λ e. h.0 (sym (get_elem?-set_ne cindex c x v out.0) ∙ e), linked-set cindex c v prev out.1 h.1)

-- One round of the `for` loop.
pub link-IsTrail :
    (csize : ℕ) (cindex : List ℕ) (curr_pos next_pos : ℕ) (prev : List ℕ)
    → IsTrail csize cindex curr_pos prev
    → next_pos < csize
    → get_elem? cindex next_pos ≡ some 0
    → next_pos ≢ curr_pos
    → IsTrail csize (set cindex curr_pos next_pos) next_pos (curr_pos ∷ prev)
link-IsTrail csize cindex curr_pos next_pos prev t below free ne =
    let off : NotIn next_pos prev = not-in_of_fresh cindex next_pos prev t.linked free in
    let here : get_elem? (set cindex curr_pos next_pos) curr_pos ≡ some next_pos =
      get_elem?-set_self cindex curr_pos next_pos (rw t.size (t.in_range.0)) in
    record {
      size = length-set cindex curr_pos next_pos ∙ t.size;
      links = (here, Links-set cindex curr_pos next_pos curr_pos prev t.distinct.0 t.links);
      distinct = ((ne, off), t.distinct);
      in_range = (below, t.in_range);
      linked = (
        λ e.
            ne-zero_of_not-in cindex next_pos curr_pos prev t.links (ne, off)
              (ground (arith, here)),
        linked-set cindex curr_pos next_pos prev t.distinct.0 t.linked,
      );
      fresh = λ x h out.
          get_elem?-set_ne cindex curr_pos x next_pos (λ e. out.0 (sym e)) ∙ t.fresh x h out.1;
    }

pub IsTrail-IsCycle :
    (csize : ℕ) (cindex : List ℕ) (curr_pos : ℕ) (prev : List ℕ)
    → IsTrail csize cindex curr_pos prev
    → length (curr_pos ∷ prev) ≡ csize
    → IsCycle csize cindex (curr_pos ∷ prev)
IsTrail-IsCycle csize cindex curr_pos prev t full = record {
  size = t.size;
  links = t.links;
  closes = t.fresh curr_pos t.in_range.0 t.distinct.0;
  distinct = t.distinct;
  in_range = t.in_range;
  complete = full;
}
