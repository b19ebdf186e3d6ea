-- ===== src/LinkedList.antt =====
-- The linked lists of concurrencylab-edit/linked_list.h and linked_list.c, whose functions are stubs:
-- whatever the arguments, they return NULL or 0 and change nothing. Addresses are numbers, and a
-- NULL pointer is `none`. The memory is an argument and a result of what should change it.
use concurrencylab.Common.{ℕ, Option, none, Pointer}

-- `list_node_t`
pub record ListNode : Type 0 where
  pub next : Option ℕ
  pub prev : Option ℕ
  pub data_ : Pointer

-- `list_t`
pub record LinkedList : Type 0 where
  pub head : Option ℕ
  pub count : ℕ

pub record ListMemory : Type 0 where
  pub lists : ℕ → Option LinkedList
  pub nodes : ℕ → Option ListNode

abbrev pub list_create : ListMemory → Option ℕ × ListMemory
list_create memory = (none, memory)

abbrev pub list_destroy : Option ℕ → ListMemory → ListMemory
list_destroy list memory = memory

abbrev pub list_begin : Option ℕ → ListMemory → Option ℕ
list_begin list memory = none

abbrev pub list_next : Option ℕ → ListMemory → Option ℕ
list_next at memory = none

abbrev pub list_data : Option ℕ → ListMemory → Pointer
list_data at memory = 0

abbrev pub list_count : Option ℕ → ListMemory → ℕ
list_count list memory = 0

abbrev pub list_find : Option ℕ → Pointer → ListMemory → Option ℕ
list_find list value memory = none

abbrev pub list_insert : Option ℕ → Pointer → ListMemory → ListMemory
list_insert list value memory = memory

abbrev pub list_remove : Option ℕ → Option ℕ → ListMemory → ListMemory
list_remove list at memory = memory

-- `world` is what the calls of `func` change.
abbrev pub list_foreach {ℓ} :
    {World : Type ℓ} → Option ℕ → (Pointer → World → World) → World → ListMemory → World
list_foreach list func world memory = world
