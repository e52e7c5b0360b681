-- ===== src/Resource.antt =====
-- IOCPCommunication/Framework/include/ResourceManage.h: the pool `mqw::ResourceManage<T>`, from
-- which every socket context, IO context, user record and queued message is taken.
-- A pointer is its address, 0 is `nullptr`, and `new T[n]` hands out the next `n` addresses.
pub mod Invariant
pub mod Steps
pub mod Calls
pub mod Misuse
use my_communication.Prelude.{
  ℕ, zero, suc, ◌+◌, ◌*◌, Bool, true, false, not, ◌&&◌, List, [], ◌∷◌, ◌++◌, Option, none, some,
  ltb, leb, ◌==◌, if◌then◌else◌, length,
}
use my_communication.Prelude.Assoc.{Assoc, lookup, insert, erase, values}

-- `backup_list_` is left out: no operation adds to it. `heap_next` is the first address that
-- `operator new` has not handed out.
pub record ResourceManage : Type 0 where
  pub count_all : ℕ
  pub count_per_unit : ℕ
  pub using_list : Assoc ℕ
  pub unused_list : List ℕ
  pub resource_block_ptr : List ℕ
  pub is_limited : Bool
  pub count_times : ℕ
  pub heap_next : ℕ

-- The pointers `block + i` that the loops push.
unfoldable pub block_pointers : ℕ → ℕ → List ℕ
block_pointers block zero = []
block_pointers block (suc n) = block ∷ block_pointers (suc block) n

-- The allocation of a block, the loop over it and `resource_block_ptr_.push_back`.
unfoldable pub add_block : ResourceManage → ResourceManage
add_block s = record s {
  unused_list = s.unused_list ++ block_pointers s.heap_next s.count_per_unit;
  resource_block_ptr = s.resource_block_ptr ++ s.heap_next ∷ [];
  heap_next = s.heap_next + s.count_per_unit;
}

unfoldable pub construct : ℕ → ℕ → ResourceManage
unfolding add_block
construct heap init_count = if ltb 0 init_count then add_block fresh else fresh
  where
    fresh : ResourceManage
    fresh = record {
      count_all = init_count;
      count_per_unit = init_count;
      using_list = [];
      unused_list = [];
      resource_block_ptr = [];
      is_limited = false;
      count_times = 1;
      heap_next = heap;
    }

unfoldable pub clear : ResourceManage → ResourceManage
clear s = record s { using_list = []; unused_list = []; resource_block_ptr = [] }

-- `alloc` says whether `new` succeeds; its exception is caught.
unfoldable pub reinitialize : Bool → ℕ → ResourceManage → ResourceManage × Bool
unfolding clear add_block
reinitialize alloc reinit_count s =
    let s₁ = if ltb 0 (length s.resource_block_ptr) then clear s else s in
    let s₂ = record s₁ { count_all = reinit_count; count_per_unit = reinit_count } in
    if reinit_count == 0 then (s, false) else if alloc then (add_block s₂, true) else (s₂, false)

unfoldable pub set_limit : Bool → ℕ → ResourceManage → ResourceManage
set_limit is_limit times s = record s {
  is_limited = is_limit;
  count_times = if leb 1 times then times else 1;
}

unfoldable pub reset : ResourceManage → ResourceManage
reset s = record s { unused_list = s.unused_list ++ values s.using_list; using_list = [] }

-- `front` and `pop_front`; `none` is the undefined behaviour of `front` on an empty list.
pub take_front : List ℕ → ResourceManage → Option (ℕ × ResourceManage)
take_front [] s = none
take_front (p ∷ rest) s =
    some (p, record s { unused_list = rest; using_list = insert p p s.using_list })

pub grow : ResourceManage → ResourceManage
unfolding add_block
grow s = record (add_block s) { count_all = s.count_all + s.count_per_unit }

unfoldable pub get : Bool → ResourceManage → Option (ℕ × ResourceManage)
unfolding take_front grow
get alloc s =
    if length s.unused_list == 0
    then if s.is_limited && leb s.count_times (length s.resource_block_ptr)
      then some (0, s)
      else if alloc
      then take_front (grow s).unused_list (grow s)
      else some (0, s)
    else take_front s.unused_list s

-- `using_list_[user]` makes an entry of `NULL` where there is none.
unfoldable pub put : ℕ → ResourceManage → ResourceManage × Bool
put user s = elim (lookup user s.using_list) [
  | none ↦ (record s { using_list = insert user 0 s.using_list }, false)
  | some v ↦ if v == 0 then (s, false) else (
    record s { using_list = erase user s.using_list; unused_list = s.unused_list ++ user ∷ [] },
    true,
  )
]

unfoldable pub unused_size : ResourceManage → ℕ
unused_size s = length s.unused_list

unfoldable pub max_size : ResourceManage → ℕ
max_size s = s.count_all

unfoldable pub unit_size : ResourceManage → ℕ
unit_size s = s.count_per_unit

unfoldable pub available : ResourceManage → Bool
available s =
    if s.count_all == 0
    then false
    else if not (length s.resource_block_ptr * s.count_per_unit == s.count_all)
    then false
    else true
