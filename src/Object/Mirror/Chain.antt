-- ===== src/Object/Mirror/Chain.antt =====
-- The ids that the loops over an object's fields go through.
use whoa.Base.{
  ℕ, suc, ◌<◌, ◌≤◌, ◌≡◌, ◌==◌, ◌||◌, refl, arith, leb, if◌then◌else◌, Bool, true, false, Bool-cases,
  inl, inr, none, some,
}
use whoa.Object.Types.{ObjectTypeId}
use whoa.Object.Mirror.{get_num_dword_blocks, inc_type_id, mirror_blocks, Walk, walk_on}

-- Whether the objects of a type go through an id.
abbrev pub on_chain : ObjectTypeId → ℕ → Bool
on_chain ObjectTypeId.object type = true
on_chain ObjectTypeId.item type = type == 0x3 || type == 0x7
on_chain ObjectTypeId.container type = type == 0x7
on_chain ObjectTypeId.unit type = type == 0x9 || type == 0x19
on_chain ObjectTypeId.player type = type == 0x19
on_chain ObjectTypeId.game_object type = type == 0x21
on_chain ObjectTypeId.dynamic_object type = type == 0x41
on_chain ObjectTypeId.corpse type = type == 0x81
on_chain ObjectTypeId.num_client_object_types type = false

-- Where the fields of an id end.
abbrev pub limit : ObjectTypeId → ℕ
limit id = elim (mirror_blocks id) [ none ↦ 0 | some n ↦ n ]

abbrev pub next_id : ℕ → ℕ → ObjectTypeId → ObjectTypeId
next_id type block id = if leb (limit id) block then inc_type_id type id else id

next_id_lem :
    (id : ObjectTypeId) (type a g b : ℕ)
    → on_chain id type ≡ true
    → b ≤ limit id
    → b < get_num_dword_blocks a type g
    → (on_chain (next_id type b id) type ≡ true) × (b < limit (next_id type b id))
next_id_lem ObjectTypeId.object type a g b on h k = ground arith
next_id_lem ObjectTypeId.item type a g b on h k = ground arith
next_id_lem ObjectTypeId.container type a g b on h k = ground arith
next_id_lem ObjectTypeId.unit type a g b on h k = ground arith
next_id_lem ObjectTypeId.player type a g b on h k = ground arith
next_id_lem ObjectTypeId.game_object type a g b on h k = ground arith
next_id_lem ObjectTypeId.dynamic_object type a g b on h k = ground arith
next_id_lem ObjectTypeId.corpse type a g b on h k = ground arith
next_id_lem ObjectTypeId.num_client_object_types type a g b on h k = absurd (ground (arith, on))

-- At a block, the walk of a type is on its chain, and not behind the fields of its id.
abbrev pub IsOn : ℕ → ℕ → Walk → Type 0
IsOn type b w = (on_chain w.type_id type ≡ true) × (b ≤ limit w.type_id)

mirror_blocks-limit :
    (id : ObjectTypeId) (type : ℕ) → on_chain id type ≡ true → mirror_blocks id ≡ some (limit id)
mirror_blocks-limit ObjectTypeId.object type on = refl
mirror_blocks-limit ObjectTypeId.item type on = refl
mirror_blocks-limit ObjectTypeId.container type on = refl
mirror_blocks-limit ObjectTypeId.unit type on = refl
mirror_blocks-limit ObjectTypeId.player type on = refl
mirror_blocks-limit ObjectTypeId.game_object type on = refl
mirror_blocks-limit ObjectTypeId.dynamic_object type on = refl
mirror_blocks-limit ObjectTypeId.corpse type on = refl
mirror_blocks-limit ObjectTypeId.num_client_object_types type on = absurd (ground (arith, on))

-- On every block that an object has, the walk finds the end of the fields of its id.
pub walk_on_lem :
    (type a g b : ℕ) (w : Walk)
    → IsOn type b w
    → b < get_num_dword_blocks a type g
    → (w' : Walk) × (walk_on type b w ≡ some w') × IsOn type (suc b) w'
walk_on_lem type a g b w on h =
    let next = next_id_lem w.type_id type a g b on.0 on.1 h in
    elim (Bool-cases (leb (limit w.type_id) b)) [
      | inl at_end ↦ (
        record { type_id = inc_type_id type w.type_id; block_offset = limit w.type_id },
        rw (mirror_blocks-limit w.type_id type on.0, at_end) refl,
        rw at_end at next,
      )
      | inr inside ↦
          (w, rw (mirror_blocks-limit w.type_id type on.0, inside) refl, rw inside at next)
    ]

-- No object has more fields than there are masks for.
pub get_num_dword_blocks-le : (a type g : ℕ) → get_num_dword_blocks a type g ≤ 1326
get_num_dword_blocks-le a type g = ground arith
