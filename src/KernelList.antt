-- ===== src/KernelList.antt =====
-- lib/kernel/list.c and list.h: doubly linked lists with two sentinels, whose elements are
-- embedded in other structures.
pub mod Chain
pub mod Refine
pub mod Walks
mod Tests
use sparrow_os.Base.{
  ℕ, zero, suc, ◌+◌, Bool, true, false, Option, none, some, ◌==◌, if◌then◌else◌, update,
}
use sparrow_os.Interrupt

-- The address of a `struct list_elem`; 0 is `NULL`.
abbrev pub Elem : Type 0
Elem = ℕ

-- The links of all elements, and the interrupt flag.
pub record Links : Type 0 where
  pub prev : Elem → Elem
  pub next : Elem → Elem
  pub intr : Bool

-- `struct list`: the addresses of the two sentinels.
pub record KernelList : Type 0 where
  pub head : Elem
  pub tail : Elem

pub init : KernelList → Links → Links
init l h = record h {
  prev = update (update h.prev l.head 0) l.tail l.head;
  next = update (update h.next l.head l.tail) l.tail 0;
}

pub insert_before : Elem → Elem → Links → Links
unfolding Interrupt.disable Interrupt.set_status
insert_before before elem h =
    let (old_status, off) = Interrupt.disable h.intr in
    let h₁ : Links = record h { next = update h.next (h.prev before) elem; intr = off } in
    let h₂ : Links = record h₁ { prev = update h₁.prev elem (h₁.prev before) } in
    let h₃ : Links = record h₂ { next = update h₂.next elem before } in
    let h₄ : Links = record h₃ { prev = update h₃.prev before elem } in
    record h₄ { intr = (Interrupt.set_status old_status h₄.intr).1 }

pub push : KernelList → Elem → Links → Links
push l elem h = insert_before (h.next l.head) elem h

pub append : KernelList → Elem → Links → Links
append l elem h = insert_before l.tail elem h

pub remove : Elem → Links → Links
unfolding Interrupt.disable Interrupt.set_status
remove pelem h =
    let (old_status, off) = Interrupt.disable h.intr in
    let h₁ : Links = record h { next = update h.next (h.prev pelem) (h.next pelem); intr = off } in
    let h₂ : Links = record h₁ { prev = update h₁.prev (h₁.next pelem) (h₁.prev pelem) } in
    record h₂ { intr = (Interrupt.set_status old_status h₂.intr).1 }

pub pop : KernelList → Links → Elem × Links
pop l h = let elem = h.next l.head in (elem, remove elem h)

pub empty : KernelList → Links → Bool
empty l h = h.next l.head == l.tail

-- The loops run on fuel; `none` means that it ran out.
find_loop : ℕ → KernelList → Elem → Elem → Links → Option Bool
find_loop zero l obj elem h = none
find_loop (suc fuel) l obj elem h =
    let rest = find_loop fuel l obj (h.next elem) h in
    if elem == l.tail then some false else if elem == obj then some true else rest

pub elem_find : ℕ → KernelList → Elem → Links → Option Bool
elem_find fuel l obj h = find_loop fuel l obj (h.next l.head) h

-- The callback may change a state `S` of its own; it does not change the links.
module _ {S : Type 0} (func : Elem → S → Bool × S) where
  traversal_loop : ℕ → KernelList → Elem → Links → S → Option (Option Elem × S)
  traversal_loop zero l elem h s = none
  traversal_loop (suc fuel) l elem h s =
      let (hit, s') = func elem s in
      let rest = traversal_loop fuel l (h.next elem) h s' in
      if elem == l.tail then some (none, s) else if hit then some (some elem, s') else rest

  pub traversal : ℕ → KernelList → Links → S → Option (Option Elem × S)
  traversal fuel l h s =
      if empty l h then some (none, s) else traversal_loop fuel l (h.next l.head) h s

len_loop : ℕ → KernelList → Elem → ℕ → Links → Option ℕ
len_loop zero l elem length h = none
len_loop (suc fuel) l elem length h =
    let rest = len_loop fuel l (h.next elem) (length + 1) h in
    if elem == l.tail then some length else rest

pub list_len : ℕ → KernelList → Links → Option ℕ
list_len fuel l h = len_loop fuel l (h.next l.head) 0 h
