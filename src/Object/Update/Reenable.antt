-- ===== src/Object/Update/Reenable.antt =====
-- The end of a message's second pass: the reenabled objects become visible.
use whoa.Base.{
  ℕ, zero, suc, ◌<◌, ◌≡◌, ◌≢◌, ◌==◌, refl, ap, ◌∙◌, sym, arith, if◌then◌else◌, true, false,
  Bool-cases, inl, inr, List, [], ◌∷◌, ◌++◌, length, append_assoc, append-nil, some,
}
use whoa.Object.ClientObject.{post_reenable}
use whoa.Object.Manager.{Storm, ObjectList, remove, ClntObjMgr, change_object, on_heap}
use whoa.Object.Manager.Tables.{StormLaws, first}
use whoa.Object.Update.{finish_reenabling}
use whoa.Object.Manager.Lists.{elem}

abbrev code : ObjectList → ℕ
code ObjectList.visible = 0
code ObjectList.reenabled = 1
code (ObjectList.lazy_cleanup id) = 2

not_visible : ObjectList.reenabled ≢ ObjectList.visible
not_visible e = omega (arith, ap code e)

module _ (storm : Storm) (laws : StormLaws storm) where
  open laws use {members}

  -- What the loop does with a manager: the lists and the flags after it.
  pub record Reenabled (m m' : ClntObjMgr storm) : Type 0 where
    pub none_left : members ObjectList.reenabled m'.links ≡ []
    pub now_visible :
        members ObjectList.visible m'.links
        ≡ members ObjectList.visible m.links ++ members ObjectList.reenabled m.links
    pub tables : (m'.objects ≡ m.objects) × (m'.lazy_cleanup_objects ≡ m.lazy_cleanup_objects)
    pub flags :
        (a : ℕ)
        → (m'.heap a).in_reenable ≡ (
            if elem a (members ObjectList.reenabled m.links) then false else (m.heap a).in_reenable)

  remove_head : (a : ℕ) (l : List ℕ) → remove a (a ∷ l) ≡ remove a l
  remove_head a l = let self : (a == a) ≡ true = ground arith in rw self refl

  flag_step :
      (a b : ℕ) (todo : List ℕ) (m : ClntObjMgr storm)
      → (if elem b todo then false else (on_heap storm a post_reenable m.heap b).in_reenable)
        ≡ (if elem b (a ∷ todo) then false else (m.heap b).in_reenable)
  flag_step a b todo m = elim (Bool-cases (elem b todo)) [
    | inl later ↦ elim (Bool-cases (b == a)) [
      | inl same ↦ rw (later, same) refl
      | inr other ↦ rw (later, other) refl
    ]
    | inr never ↦ elim (Bool-cases (b == a)) [
      | inl same ↦ rw (never, same) refl
      | inr other ↦ rw (never, other) refl
    ]
  ]

  finish_lem :
      (todo : List ℕ) (n : ℕ) (m : ClntObjMgr storm)
      → members ObjectList.reenabled m.links ≡ todo
      → length todo < n
      → (m' : ClntObjMgr storm) × (finish_reenabling storm n m ≡ some m') × Reenabled m m'
  unfolding finish_reenabling
  finish_lem todo zero m e h = absurd (omega (arith, h))
  finish_lem [] (suc n) m e h =
      let empty = laws.head_lem ObjectList.reenabled m.links ∙ ap first e in
      (
        m,
        rw (finish_reenabling, empty) refl,
        record {
          none_left = e;
          now_visible = sym (ap (λ l. members ObjectList.visible m.links ++ l) e ∙ append-nil _);
          tables = (refl, refl);
          flags = λ a. rw e refl;
        },
      )
  finish_lem (a ∷ todo) (suc n) m e h =
      let head = laws.head_lem ObjectList.reenabled m.links ∙ ap first e in
      let m1 : ClntObjMgr storm = record (change_object storm a post_reenable m) {
        links = storm.link_to_tail ObjectList.visible a m.links;
      } in
      let once = laws.linked_once ObjectList.reenabled a todo m.links e in
      let here =
        laws.linked_here ObjectList.reenabled ObjectList.visible a todo m.links e not_visible in
      let rest : members ObjectList.reenabled m1.links ≡ todo =
        laws.members_other ObjectList.visible ObjectList.reenabled a m.links
          (λ q. not_visible (sym q))
        ∙ ap (remove a) e
        ∙ remove_head a todo
        ∙ once in
      let seen : members ObjectList.visible m1.links
          ≡ members ObjectList.visible m.links ++ (a ∷ []) =
        laws.members_tail ObjectList.visible a m.links ∙ ap (λ l. l ++ (a ∷ [])) here in
      let (m', ran, r) = finish_lem todo n m1 rest (omega (arith, h)) in
      (
        m',
        rw (finish_reenabling, head) ran,
        record {
          none_left = r.none_left;
          now_visible =
              r.now_visible
              ∙ ap (λ l. members ObjectList.visible m1.links ++ l) rest
              ∙ ap (λ l. l ++ todo) seen
              ∙ append_assoc (members ObjectList.visible m.links) (a ∷ []) todo
              ∙ ap (λ l. members ObjectList.visible m.links ++ l) (sym e);
          tables = r.tables;
          flags = λ b.
              r.flags b
              ∙ ap (λ l. if elem b l then false else (m1.heap b).in_reenable) rest
              ∙ flag_step a b todo m
              ∙ ap (λ l. if elem b l then false else (m.heap b).in_reenable) (sym e);
        },
      )

  -- With more rounds than there are reenabled objects, the loop ends: none is left, all of them are
  -- behind the visible ones, in their order; they are no longer being reenabled, the other objects'
  -- flags and the tables are as before.
  pub finish_reenabling_lem :
      (n : ℕ) (m : ClntObjMgr storm)
      → length (members ObjectList.reenabled m.links) < n
      → (m' : ClntObjMgr storm) × (finish_reenabling storm n m ≡ some m') × Reenabled m m'
  finish_reenabling_lem n m h = finish_lem (members ObjectList.reenabled m.links) n m refl h
