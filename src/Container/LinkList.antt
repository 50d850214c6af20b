-- ===== src/Container/LinkList.antt =====
-- libcontainer/container_link_list.h: a doubly linked list of nodes from the memory pool. The store
-- gives the node at an address, `none` where no node is; 0 is a null pointer. An access of an address
-- without a node is no result (`none`). `malloc` stands for `Malloc` of the pool, and `stale` for the
-- node that its memory happens to hold.
pub mod Segment
pub mod Links
pub mod Insertion
pub mod Runs
pub mod Pushes
pub mod Ends
pub mod Removal
pub mod Clear
mod Examples
use comm_libs.Common.{
  ℕ, zero, suc, ◌+◌, ◌-◌, ◌%◌, ◌^◌, Bool, true, false, Option, none, some, if◌then◌else◌, ◌==◌,
}

pub record Node (T : Type 0) : Type 0 where
  pub element : T
  pub prev : ℕ
  pub next : ℕ

abbrev pub Store : Type 0 → Type 0
Store T = ℕ → Option (Node T)

pub record LinkList (T : Type 0) : Type 0 where
  pub store : Store T
  pub head : ℕ
  pub tail : ℕ
  pub count : ℕ

infixl 5 ◌>>=◌
abbrev pub ◌>>=◌ : {A B : Type 0} → Option A → (A → Option B) → Option B
none >>= f = none
some a >>= f = f a

abbrev pub count_up : ℕ → ℕ
count_up n = (n + 1) % 2 ^ 32

abbrev pub count_down : ℕ → ℕ
count_down n = (n + 2 ^ 32 - 1) % 2 ^ 32

module _ {T : Type 0} where
  abbrev pub prev_of : ℕ → Option (Node T) → Option (Node T)
  prev_of v none = none
  prev_of v (some n) = some (record n { prev = v })

  abbrev pub next_of : ℕ → Option (Node T) → Option (Node T)
  next_of v none = none
  next_of v (some n) = some (record n { next = v })

  abbrev pub with_prev : ℕ → ℕ → Store T → Store T
  with_prev p v s q = if p == q then prev_of v (s q) else s q

  abbrev pub with_next : ℕ → ℕ → Store T → Store T
  with_next p v s q = if p == q then next_of v (s q) else s q

  -- `p->prev = v` and `p->next = v`.
  abbrev pub set_prev : ℕ → ℕ → Store T → Option (Store T)
  set_prev p v s = elim (s p) [ none ↦ none | some n ↦ some (with_prev p v s) ]

  abbrev pub set_next : ℕ → ℕ → Store T → Option (Store T)
  set_next p v s = elim (s p) [ none ↦ none | some n ↦ some (with_next p v s) ]

  -- The default constructor, over a store.
  unfoldable pub create : Store T → LinkList T
  create s = record { store = s; head = 0; tail = 0; count = 0 }

  -- `_push_before` and `_push_after` at no node, that is, the node becomes the whole list.
  unfoldable pub link_alone : (new_node : ℕ) → LinkList T → Option (LinkList T)
  link_alone new_node l = do
    s ← set_prev new_node 0 l.store
    s' ← set_next new_node 0 s
    some (record l { store = s'; head = new_node; tail = new_node; count = count_up l.count })

  unfoldable pub link_first : (curr new_node : ℕ) → Node T → LinkList T → Option (LinkList T)
  link_first curr new_node c l = do
    s ← set_prev new_node c.prev l.store
    s' ← set_next new_node curr s
    s'' ← set_prev curr new_node s'
    some (record l { store = s''; head = new_node; count = count_up l.count })

  unfoldable pub link_inside_before :
      (curr new_node : ℕ) → Node T → LinkList T → Option (LinkList T)
  link_inside_before curr new_node c l = do
    s ← set_next c.prev new_node l.store
    c' ← s curr
    s' ← set_prev new_node c'.prev s
    s'' ← set_prev curr new_node s'
    s''' ← set_next new_node curr s''
    some (record l { store = s'''; count = count_up l.count })

  -- `_push_before`
  pub link_before : (curr new_node : ℕ) → LinkList T → Option (LinkList T)
  link_before curr new_node l =
      if new_node == 0
      then some l
      else if curr == 0
      then link_alone new_node l
      else l.store curr >>= λ c.
          if c.prev == 0 then link_first curr new_node c l else link_inside_before curr new_node c l

  unfoldable pub link_last : (curr new_node : ℕ) → Node T → LinkList T → Option (LinkList T)
  link_last curr new_node c l = do
    s ← set_next new_node c.next l.store
    s' ← set_prev new_node curr s
    s'' ← set_next curr new_node s'
    some (record l { store = s''; tail = new_node; count = count_up l.count })

  unfoldable pub link_inside_after : (curr new_node : ℕ) → Node T → LinkList T → Option (LinkList T)
  link_inside_after curr new_node c l = do
    s ← set_prev c.next new_node l.store
    c' ← s curr
    s' ← set_next new_node c'.next s
    s'' ← set_next curr new_node s'
    s''' ← set_prev new_node curr s''
    some (record l { store = s'''; count = count_up l.count })

  -- `_push_after`
  pub link_after : (curr new_node : ℕ) → LinkList T → Option (LinkList T)
  link_after curr new_node l =
      if new_node == 0
      then some l
      else if curr == 0
      then link_alone new_node l
      else l.store curr >>= λ c.
          if c.next == 0 then link_last curr new_node c l else link_inside_after curr new_node c l

  -- `_pop` of a node, by which of its links are null.
  unfoldable pub unlink_inside : ℕ → Node T → LinkList T → Option (LinkList T)
  unlink_inside node n l = do
    s ← set_next n.prev n.next l.store
    n' ← s node
    s' ← set_prev n'.next n'.prev s
    some (record l { store = s'; count = count_down l.count })

  unfoldable pub unlink_first : Node T → LinkList T → Option (LinkList T)
  unlink_first n l = do
    s ← set_prev n.next n.prev l.store
    some (record l { store = s; head = n.next; count = count_down l.count })

  unfoldable pub unlink_last : Node T → LinkList T → Option (LinkList T)
  unlink_last n l = do
    s ← set_next n.prev n.next l.store
    some (record l { store = s; tail = n.prev; count = count_down l.count })

  unfoldable pub unlink_only : LinkList T → LinkList T
  unlink_only l = record l { head = 0; tail = 0; count = count_down l.count }

  pub unlink : ℕ → LinkList T → Option (LinkList T)
  unlink node l = l.store node >>= λ n.
      if n.next == 0
      then if n.prev == 0 then some (unlink_only l) else unlink_last n l
      else if n.prev == 0
      then unlink_first n l
      else unlink_inside node n l

  -- `Destruct` and `Free` of a node's block.
  abbrev pub free : ℕ → LinkList T → LinkList T
  free p l = record l { store = λ q. if p == q then none else l.store q }

  -- `pop` of an iterator; `popfront` and `popback` are this at the head and the tail.
  pub pop : ℕ → LinkList T → Option (LinkList T)
  unfolding unlink
  pop target l = if target == 0 then some l else unlink target l >>= λ l'. some (free target l')

  unfoldable pub popfront : LinkList T → Option (LinkList T)
  popfront l = pop l.head l

  unfoldable pub popback : LinkList T → Option (LinkList T)
  popback l = pop l.tail l

  -- The loop of `clear`; it is no result either when it has not ended within the fuel.
  pub clear_loop : ℕ → LinkList T → Option (LinkList T)
  clear_loop zero l = if l.head == 0 then some l else none
  clear_loop (suc fuel) l =
      let next = popfront l >>= clear_loop fuel in if l.head == 0 then some l else next

  pub clear : ℕ → LinkList T → Option (LinkList T)
  unfolding clear_loop
  clear fuel l = clear_loop fuel l >>= λ l'. some (record l' { count = 0 })

  module _ (malloc : Store T → ℕ) (stale : Node T) where
    -- The block from the pool with its element constructed.
    abbrev pub allocate : T → LinkList T → LinkList T
    allocate element l = record l {
      store =
          λ q. if malloc l.store == q then some (record stale { element = element }) else l.store q;
    }

    -- `pushbefore` and `pushafter` an iterator; `pushfront` and `pushback` are these at the ends.
    unfoldable pub push_before : ℕ → T → LinkList T → Option (LinkList T)
    push_before target element l = link_before target (malloc l.store) (allocate element l)

    unfoldable pub push_after : ℕ → T → LinkList T → Option (LinkList T)
    push_after target element l = link_after target (malloc l.store) (allocate element l)

    unfoldable pub push_front : T → LinkList T → Option (LinkList T)
    push_front element l = push_before l.head element l

    unfoldable pub push_back : T → LinkList T → Option (LinkList T)
    push_back element l = push_after l.tail element l
