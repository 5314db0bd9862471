-- ===== src/Object/Mirror/Fill.antt =====
-- Writing the fields that a message changes, and reading over them.
use whoa.Base.{
  ℕ, zero, suc, ◌+◌, ◌/◌, ◌<◌, ◌≤◌, ◌≡◌, ◌==◌, refl, ap, ◌∙◌, sym, arith, ltb, if◌then◌else◌, Bool,
  true, false, Bool-cases, inl, inr, some, List, length, get_or, set, length-set, get_or-set_self,
  get_or-set_ne, ◌≢◌,
}
use whoa.Object.DataStore.{DataStore}
use whoa.Object.ClientObject.{ClientObject, get_type, set_block, with_storage}
use whoa.Object.Mirror.{
  Walk, get_num_dword_blocks, fill_field, fill_blocks, skip_blocks, mirror_loop,
}
use whoa.Object.Mirror.Chain.{IsOn, walk_on_lem, get_num_dword_blocks-le}
use whoa.Object.Mirror.Masks.{changes, count_changes, mask_at-length, words}

get_or-set :
    (xs : List ℕ) (i j v : ℕ)
    → i < length xs
    → get_or (set xs i v) j 0 ≡ (if j == i then v else get_or xs j 0)
get_or-set xs i j v h = elim (Bool-cases (j == i)) [
  | inl same ↦
      let e : j ≡ i = ground (arith, same) in
      rw same (ap (λ k. get_or (set xs i v) k 0) e ∙ get_or-set_self xs i v 0 h)
  | inr other ↦
      let apart : i ≢ j = λ e. ground (arith, e, other) in rw other (get_or-set_ne xs i j v 0 apart)
]

module _ (d : DataStore) (masks : List ℕ) (s : d.Store) where
  -- What a field is after a message whose numbers start at a place: the number of the message for
  -- it, zero, or what it was.
  abbrev pub field_after : Bool → List ℕ → ℕ → ℕ
  field_after zero_zero_bits fields i =
      if changes masks i
      then (d.get 4 (words d (count_changes masks i) s)).0
      else if zero_zero_bits
      then 0
      else get_or fields i 0

  -- The fields below a block are written, the others are as they were.
  pub record FilledTo (zero_zero_bits : Bool) (block : ℕ) (o o' : ClientObject) : Type 0 where
    pub others : o' ≡ with_storage o o'.storage
    pub same_size : length o'.storage ≡ length o.storage
    pub fields :
        (i : ℕ)
        → get_or o'.storage i 0
          ≡ (if ltb i block then field_after zero_zero_bits o.storage i else get_or o.storage i 0)

  pub FilledTo-type :
      (zero_zero_bits : Bool) (block : ℕ) (o o' : ClientObject)
      → FilledTo zero_zero_bits block o o'
      → field_after zero_zero_bits o.storage 2 ≡ get_type o
      → get_type o' ≡ get_type o
  FilledTo-type z block o o' f keeps = elim (Bool-cases (ltb 2 block)) [
    | inl behind ↦ rw behind at (f.fields 2) ∙ keeps
    | inr before ↦ rw before at (f.fields 2)
  ]

  FilledTo-set :
      (z : Bool) (block v : ℕ) (o o' : ClientObject)
      → FilledTo z block o o'
      → block < length o'.storage
      → v ≡ field_after z o.storage block
      → FilledTo z (suc block) o (with_storage o' (set o'.storage block v))
  FilledTo-set z block v o o' f h e = record {
    others = ap (λ x. with_storage x (set o'.storage block v)) f.others;
    same_size = length-set o'.storage block v ∙ f.same_size;
    fields = λ i. get_or-set o'.storage block i v h ∙ at_field i;
  }
    where
      at_field :
          (i : ℕ)
          → (if i == block then v else get_or o'.storage i 0)
            ≡ (if ltb i (suc block) then field_after z o.storage i else get_or o.storage i 0)
      at_field i = elim (Bool-cases (i == block)) [
        | inl same ↦
            let here : i ≡ block = ground (arith, same) in
            let below : ltb i (suc block) ≡ true = ground (arith, same) in
            rw (same, below) (e ∙ ap (field_after z o.storage) (sym here))
        | inr other ↦
            let step : ltb i (suc block) ≡ ltb i block = ground (arith, other) in
            rw (other, step) (f.fields i)
      ]

  -- A field that is kept.
  FilledTo-keep :
      (z : Bool) (block : ℕ) (o o' : ClientObject)
      → FilledTo z block o o'
      → get_or o.storage block 0 ≡ field_after z o.storage block
      → FilledTo z (suc block) o o'
  FilledTo-keep z block o o' f e = record {
    others = f.others;
    same_size = f.same_size;
    fields = λ i. f.fields i ∙ at_field i;
  }
    where
      at_field :
          (i : ℕ)
          → (if ltb i block then field_after z o.storage i else get_or o.storage i 0)
            ≡ (if ltb i (suc block) then field_after z o.storage i else get_or o.storage i 0)
      at_field i = elim (Bool-cases (i == block)) [
        | inl same ↦
            let here : i ≡ block = ground (arith, same) in
            let below : ltb i (suc block) ≡ true = ground (arith, same) in
            let above : ltb i block ≡ false = ground (arith, same) in
            rw (below, above)
              (ap (λ j. get_or o.storage j 0) here ∙ e ∙ ap (field_after z o.storage) (sym here))
        | inr other ↦
            let step : ltb i (suc block) ≡ ltb i block = ground (arith, other) in rw step refl
      ]

  set_block_lem :
      (o : ClientObject) (block v : ℕ)
      → block < length o.storage
      → set_block o block v ≡ some (with_storage o (set o.storage block v))
  set_block_lem o block v h = elim (Bool-cases (ltb block (length o.storage))) [
    | inl there ↦ rw there refl
    | inr out ↦ absurd (ground (arith, h, out))
  ]

  -- One block of the loop.
  fill_field_lem :
      (z : Bool) (block : ℕ) (o o' : ClientObject)
      → FilledTo z block o o'
      → block < length o'.storage
      → (o'' : ClientObject) × (fill_field d
            (changes masks block)
            z
            block
            o'
            (words d (count_changes masks block) s)
          ≡ some (o'', words d (count_changes masks (suc block)) s))
        × FilledTo z (suc block) o o''
  unfolding fill_field
  fill_field_lem z block o o' f h = elim (Bool-cases (changes masks block)) [
    | inl present ↦
        let v = (d.get 4 (words d (count_changes masks block) s)).0 in
        (
          with_storage o' (set o'.storage block v),
          rw (present, set_block_lem o' block v h) refl,
          FilledTo-set z block v o o' f h (rw present refl),
        )
    | inr absent ↦ elim (Bool-cases z) [
      | inl zeroed ↦ (
        with_storage o' (set o'.storage block 0),
        rw (absent, zeroed, set_block_lem o' block 0 h) refl,
        FilledTo-set z block 0 o o' f h (rw (absent, zeroed) refl),
      )
      | inr kept ↦
          (o', rw (absent, kept) refl, FilledTo-keep z block o o' f (rw (absent, kept) refl))
    ]
  ]

  pub FilledTo-none : (z : Bool) (o : ClientObject) → FilledTo z 0 o o
  FilledTo-none z o = record {
    others = refl;
    same_size = refl;
    fields = λ i. let outside : ltb i 0 ≡ false = ground arith in rw outside refl;
  }

  one_more :
      (block : ℕ)
      → (if changes masks block
          then (d.get 4 (words d (count_changes masks block) s)).1
          else words d (count_changes masks block) s)
        ≡ words d (count_changes masks (suc block)) s
  one_more block = elim (Bool-cases (changes masks block)) [
    | inl present ↦ rw present refl
    | inr absent ↦ rw absent refl
  ]

  -- The loop on the blocks behind one, up to the end.
  pub fill_blocks_lem :
      (z : Bool) (active guid end : ℕ) (o : ClientObject)
      → length masks ≡ 42
      → end ≡ get_num_dword_blocks active (get_type o) guid
      → end ≤ length o.storage
      → field_after z o.storage 2 ≡ get_type o
      → (n block : ℕ) (w : Walk) (o' : ClientObject) → n + block ≡ end
      → IsOn (get_type o) block w
      → FilledTo z block o o'
      → (o'' : ClientObject) × (fill_blocks d masks z n block w o'
            (words d (count_changes masks block) s)
          ≡ some (o'', words d (count_changes masks end) s))
        × FilledTo z end o o''
  unfolding fill_blocks
  fill_blocks_lem z active guid end o len num room keeps zero block w o' total on f =
      let here : block ≡ end = omega (arith, total) in
      (o', ap (λ k. some (o', words d (count_changes masks k) s)) here, rw here at f)
  fill_blocks_lem z active guid end o len num room keeps (suc n) block w o' total on f =
      let type_same = FilledTo-type z block o o' f keeps in
      let (w', walks, on') =
        walk_on_lem (get_type o) active guid block w on (omega (arith, total, num)) in
      let masked =
        mask_at-length masks (block / 32)
          (omega (arith, len, total, num, get_num_dword_blocks-le active (get_type o) guid)) in
      let (o1, filled, f1) =
        fill_field_lem z block o o' f (omega (arith, total, room, f.same_size)) in
      let (o2, rest, f2) =
        fill_blocks_lem z active guid end o len num room keeps n (suc block) w' o1
          (omega (arith, total)) on' f1 in
      (o2, rw (type_same, walks, masked, filled) rest, f2)

  -- Reading over the fields of an object is reading the numbers of those that are changed.
  pub mirror_loop_lem :
      (active guid end type : ℕ)
      → length masks ≡ 42
      → end ≡ get_num_dword_blocks active type guid
      → (n block : ℕ) (w : Walk) → n + block ≡ end
      → IsOn type block w
      → mirror_loop d masks type n block w (words d (count_changes masks block) s)
        ≡ some (words d (count_changes masks end) s)
  unfolding mirror_loop
  mirror_loop_lem active guid end type len num zero block w total on =
      let here : block ≡ end = omega (arith, total) in
      ap (λ k. some (words d (count_changes masks k) s)) here
  mirror_loop_lem active guid end type len num (suc n) block w total on =
      let (w', walks, on') = walk_on_lem type active guid block w on (omega (arith, total, num)) in
      let masked =
        mask_at-length masks (block / 32)
          (omega (arith, len, total, num, get_num_dword_blocks-le active type guid)) in
      rw (walks, masked)
        (ap (mirror_loop d masks type n (suc block) w') (one_more block)
          ∙ mirror_loop_lem active guid end type len num n (suc block) w' (omega (arith, total))
              on')

  -- Skipping them is, too.
  pub skip_blocks_lem :
      (end : ℕ)
      → length masks ≡ 42
      → end ≤ 1344
      → (n block : ℕ) → n + block ≡ end
      → skip_blocks d masks n block (words d (count_changes masks block) s)
        ≡ some (words d (count_changes masks end) s)
  unfolding skip_blocks
  skip_blocks_lem end len small zero block total =
      let here : block ≡ end = omega (arith, total) in
      ap (λ k. some (words d (count_changes masks k) s)) here
  skip_blocks_lem end len small (suc n) block total =
      let masked = mask_at-length masks (block / 32) (omega (arith, len, total, small)) in
      rw masked (
        ap (skip_blocks d masks n (suc block)) (one_more block)
        ∙ skip_blocks_lem end len small n (suc block) (omega (arith, total)))
