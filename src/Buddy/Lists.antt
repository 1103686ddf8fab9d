-- ===== src/Buddy/Lists.antt =====
-- The circular lists of lib_buddy.c stand for sequences of nodes.
use tp2_so_2025q.Base.{
  ℕ, ◌≡◌, ◌≢◌, refl, sym, ◌∙◌, Bool, true, false, List, [], ◌∷◌, ◌++◌, arith, ◌==◌,
}
use tp2_so_2025q.Buddy.{
  Nodes, set_next, set_prev, list_init, list_remove, list_push, list_pop, list_empty,
}

abbrev pub NotIn : ℕ → List ℕ → Type 0
NotIn a [] = Unit
NotIn a (x ∷ xs) = (a ≢ x) × NotIn a xs

abbrev pub AreDistinct : List ℕ → Type 0
AreDistinct [] = Unit
AreDistinct (x ∷ xs) = NotIn x xs × AreDistinct xs

-- The pointers lead from `a` through `xs` to `z` and back.
abbrev pub Linked : Nodes → ℕ → List ℕ → ℕ → Type 0
Linked m a [] z = (m.next a ≡ z) × (m.prev z ≡ a)
Linked m a (x ∷ xs) z = (m.next a ≡ x) × (m.prev x ≡ a) × Linked m x xs z

-- The list at the head `l` holds the nodes `xs`.
pub record Keeps (m : Nodes) (l : ℕ) (xs : List ℕ) : Type 0 where
  pub linked : Linked m l xs l
  pub head_apart : NotIn l xs
  pub distinct : AreDistinct xs

-- A pointer of a node that is none of those on the way.
Linked-set_next :
    (u v : ℕ) (m : Nodes) (a z : ℕ) (xs : List ℕ)
    → u ≢ a
    → NotIn u xs
    → Linked m a xs z
    → Linked (set_next u v m) a xs z
unfolding set_next
Linked-set_next u v m a z [] ne out h = ground arith
Linked-set_next u v m a z (x ∷ xs) ne out h =
    (ground arith, h.1, Linked-set_next u v m x z xs out.0 out.1 h.2)

Linked-set_prev :
    (u v : ℕ) (m : Nodes) (a z : ℕ) (xs : List ℕ)
    → u ≢ z
    → NotIn u xs
    → Linked m a xs z
    → Linked (set_prev u v m) a xs z
unfolding set_prev
Linked-set_prev u v m a z [] ne out h = ground arith
Linked-set_prev u v m a z (x ∷ xs) ne out h =
    (h.0, ground arith, Linked-set_prev u v m x z xs ne out.1 h.2)

-- Behind a push the node stands first.
list_push-Linked :
    (l p : ℕ) (m : Nodes) (xs : List ℕ)
    → p ≢ l
    → NotIn p xs
    → NotIn l xs
    → AreDistinct xs
    → Linked m l xs l
    → Linked (list_push l p m) l (p ∷ xs) l
unfolding list_push
list_push-Linked l p m [] ne out apart distinct h =
    (ground arith, ground arith, (ground arith, ground arith))
list_push-Linked l p m (x ∷ xs) ne out apart distinct h =
    let m1 = set_prev p l (set_next p (m.next l) m) in
    let first : m1.next l ≡ x = ground arith in
    let more = Linked-set_next l p (set_prev (m1.next l) p m1) x l xs apart.0 apart.1 (
      Linked-set_prev (m1.next l) p m1 x l xs (λ e. apart.0 (sym e ∙ first)) (rw first distinct.0)
        (Linked-set_prev p l (set_next p (m.next l) m) x l xs ne out.1
          (Linked-set_next p (m.next l) m x l xs out.0 out.1 h.2))) in
    (ground arith, ground arith, (ground (arith, h.0), ground (arith, first, h.0), more))

-- Before `e` comes none but a node on the way, and behind it neither.
prev-ne :
    (u e : ℕ) (m : Nodes) (a z : ℕ) (ys zs : List ℕ)
    → u ≢ a
    → NotIn u ys
    → Linked m a (ys ++ e ∷ zs) z
    → m.prev e ≢ u
prev-ne u e m a z [] zs ne out h = λ same. ne (sym same ∙ h.1)
prev-ne u e m a z (y ∷ ys) zs ne out h = prev-ne u e m y z ys zs out.0 out.1 h.2

next-ne :
    (u e : ℕ) (m : Nodes) (a z : ℕ) (ys zs : List ℕ)
    → u ≢ z
    → NotIn u zs
    → Linked m a (ys ++ e ∷ zs) z
    → m.next e ≢ u
next-ne u e m a z [] [] ne out h = λ same. ne (sym same ∙ h.2.0)
next-ne u e m a z [] (x ∷ zs) ne out h = λ same. out.0 (sym same ∙ h.2.0)
next-ne u e m a z (y ∷ ys) zs ne out h = next-ne u e m y z ys zs ne out h.2

NotIn-parts :
    (u e : ℕ) (ys zs : List ℕ) → NotIn u (ys ++ e ∷ zs) → NotIn u ys × (u ≢ e) × NotIn u zs
NotIn-parts u e [] zs h = (tt, h.0, h.1)
NotIn-parts u e (y ∷ ys) zs h =
    let (before, here, after) = NotIn-parts u e ys zs h.1 in ((h.0, before), here, after)

NotIn-without : (u e : ℕ) (ys zs : List ℕ) → NotIn u (ys ++ e ∷ zs) → NotIn u (ys ++ zs)
NotIn-without u e [] zs h = h.1
NotIn-without u e (y ∷ ys) zs h = (h.0, NotIn-without u e ys zs h.1)

AreDistinct-without : (e : ℕ) (ys zs : List ℕ) → AreDistinct (ys ++ e ∷ zs) → AreDistinct (ys ++ zs)
AreDistinct-without e [] zs h = h.1
AreDistinct-without e (y ∷ ys) zs h = (NotIn-without y e ys zs h.0, AreDistinct-without e ys zs h.1)

-- The two writes of `list_remove`, whichever node they fall on.
list_remove_lem :
    (e : ℕ) (m : Nodes)
    → list_remove e m ≡ set_prev (m.next e) (m.prev e) (set_next (m.prev e) (m.next e) m)
unfolding list_remove
list_remove_lem e m =
    let same : (set_next (m.prev e) (m.next e) m).next e ≡ m.next e = ground arith in rw same refl

unlink :
    (e : ℕ) (m : Nodes) (a z : ℕ) (ys zs : List ℕ)
    → NotIn a (ys ++ e ∷ zs)
    → NotIn z (ys ++ e ∷ zs)
    → AreDistinct (ys ++ e ∷ zs)
    → Linked m a (ys ++ e ∷ zs) z
    → Linked (set_prev (m.next e) (m.prev e) (set_next (m.prev e) (m.next e) m)) a (ys ++ zs) z
unfolding set_next set_prev
unlink e m a z [] [] oa oz d h =
    (ground (arith, h.0, h.1, h.2.0), ground (arith, h.1, h.2.0, h.2.1))
unlink e m a z [] (x ∷ zs) oa oz d h = (
  ground (arith, h.0, h.1, h.2.0),
  ground (arith, h.1, h.2.0),
  Linked-set_prev (m.next e) (m.prev e) (set_next (m.prev e) (m.next e) m) x z zs
      (λ same. oz.1.0 (sym same ∙ h.2.0)) (rw h.2.0 d.1.0)
      (Linked-set_next (m.prev e) (m.next e) m x z zs (λ same. oa.1.0 (sym h.1 ∙ same))
        (rw h.1 oa.1.1) h.2.2),
)
unlink e m a z (y ∷ ys) zs oa oz d h =
    let (_, _, after) = NotIn-parts y e ys zs d.0 in
    let from = prev-ne a e m y z ys zs oa.0 (NotIn-parts a e ys zs oa.1).0 h.2 in
    let to = next-ne y e m y z ys zs (λ same. oz.0 (sym same)) after h.2 in
    (ground (arith, from, h.0), ground (arith, to, h.1), unlink e m y z ys zs d.0 oz.1 d.1 h.2)

list_remove-Keeps :
    (l e : ℕ) (ys zs : List ℕ) (m : Nodes)
    → Keeps m l (ys ++ e ∷ zs)
    → Keeps (list_remove e m) l (ys ++ zs)
list_remove-Keeps l e ys zs m k = record {
  linked =
      rw (list_remove_lem e m) (unlink e m l l ys zs k.head_apart k.head_apart k.distinct k.linked);
  head_apart = NotIn-without l e ys zs k.head_apart;
  distinct = AreDistinct-without e ys zs k.distinct;
}

list_push-Keeps :
    (l p : ℕ) (xs : List ℕ) (m : Nodes)
    → Keeps m l xs
    → p ≢ l
    → NotIn p xs
    → Keeps (list_push l p m) l (p ∷ xs)
list_push-Keeps l p xs m k ne out = record {
  linked = list_push-Linked l p m xs ne out k.head_apart k.distinct k.linked;
  head_apart = (λ e. ne (sym e), k.head_apart);
  distinct = (out, k.distinct);
}

list_pop_lem :
    (l x : ℕ) (xs : List ℕ) (m : Nodes) → Keeps m l (x ∷ xs) → list_pop l m ≡ (x, list_remove x m)
unfolding list_pop
list_pop_lem l x xs m k =
    let first = k.linked.0 in
    let some_left : (m.next l == l) ≡ false = ground (arith, first, k.head_apart.0) in
    rw some_left (λ i. (first i, list_remove (first i) m))

-- The first node of a sequence, NULL without one, and the others.
abbrev pub first : List ℕ → ℕ
first [] = 0
first (x ∷ xs) = x

abbrev pub others : List ℕ → List ℕ
others [] = []
others (x ∷ xs) = xs

abbrev pub is_nil : List ℕ → Bool
is_nil [] = true
is_nil (x ∷ xs) = false

list_pop-Keeps :
    (l : ℕ) (xs : List ℕ) (m : Nodes)
    → Keeps m l xs
    → ((list_pop l m).0 ≡ first xs) × Keeps (list_pop l m).1 l (others xs)
list_pop-Keeps l [] m k =
    let none_left : (m.next l == l) ≡ true = ground (arith, k.linked.0) in
    unfold list_pop in rw none_left (refl, k)
list_pop-Keeps l (x ∷ xs) m k = rw (list_pop_lem l x xs m k) (refl, list_remove-Keeps l x [] xs m k)

list_empty-is_nil : (l : ℕ) (xs : List ℕ) (m : Nodes) → Keeps m l xs → list_empty l m ≡ is_nil xs
unfolding list_empty
list_empty-is_nil l [] m k = ground (arith, k.linked.0)
list_empty-is_nil l (x ∷ xs) m k = ground (arith, k.linked.0, k.head_apart.0)

list_init-Keeps : (l : ℕ) (m : Nodes) → Keeps (list_init l m) l []
unfolding list_init set_next set_prev
list_init-Keeps l m = record {
  linked = (ground arith, ground arith);
  head_apart = tt;
  distinct = tt;
}

-- The circular lists are sequences. A new list has no nodes. Of any list, also of an empty one and of one
-- with a single node: a push puts a new node in front; a pop gives the first node and takes it off, and
-- gives NULL where there is none; the test for emptiness says whether there are nodes. A removal takes
-- any node out of its place. The order of the others stays.
pub lists_refine :
    (l p e : ℕ) (xs ys zs : List ℕ) (m n : Nodes)
    → Keeps m l xs
    → p ≢ l
    → NotIn p xs
    → Keeps n l (ys ++ e ∷ zs)
    → Keeps (list_init l m) l []
      × Keeps (list_push l p m) l (p ∷ xs)
      × ((list_pop l m).0 ≡ first xs)
      × Keeps (list_pop l m).1 l (others xs)
      × (list_empty l m ≡ is_nil xs)
      × Keeps (list_remove e n) l (ys ++ zs)
lists_refine l p e xs ys zs m n k ne out k' =
    let (node, rest) = list_pop-Keeps l xs m k in
    (
      list_init-Keeps l m,
      list_push-Keeps l p xs m k ne out,
      node,
      rest,
      list_empty-is_nil l xs m k,
      list_remove-Keeps l e ys zs n k',
    )
