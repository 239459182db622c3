-- ===== src/Store/Chain.antt =====
-- Nodes that hang together by their next pointers, and a list that owns them.
use theblockchainkiller.Base.{
  ◌≡◌, ◌≢◌, refl, Bool, true, false, ◌||◌, Option, none, some, List, [], ◌∷◌, ◌++◌, suc, ap, length,
  ◌==◌, arith,
}
use theblockchainkiller.Store.{Ptr, null, Cell, node, linked_list, Heap, look}

-- The addresses of nodes, each with its data pointer.
abbrev pub Nodes : Type 0
Nodes = List (Ptr × Ptr)

abbrev pub among : Nodes → Ptr → Bool
among [] a = false
among (n ∷ ns) a = (a == n.0) || among ns a

abbrev pub data_of : Nodes → List Ptr
data_of [] = []
data_of (n ∷ ns) = n.1 ∷ data_of ns

-- The nodes from an address to the NULL at the end, no two at the same address.
pub data Chain (h : Heap) : Nodes → Ptr → Type 0 where
  empty : Chain h [] null
  linked :
      {ns : Nodes} {d p q : Ptr}
      → Chain h ns q
      → p ≢ null
      → among ns p ≡ false
      → look p h ≡ some (node d q)
      → Chain h ((p, d) ∷ ns) p

-- A heap is the list at `l` with functions `f` and `c`, and apart from it `rest`.
pub record Owned (rest : Heap) (l f c : Ptr) (ns : Nodes) (head : Ptr) (h : Heap) : Type 0 where
  pub chain : Chain h ns head
  pub ne_null : l ≢ null
  pub struct : look l h ≡ some (linked_list f c head)
  pub outside : (a : Ptr) → (a == l) ≡ false → among ns a ≡ false → look a h ≡ look a rest
  pub apart : (a : Ptr) → among ns a ≡ true → look a rest ≡ none
  pub list_apart : look l rest ≡ none

-- A change that leaves the nodes alone leaves the chain.
pub Chain-same :
    {h g : Heap} {ns : Nodes} {p : Ptr}
    → Chain h ns p
    → ((a : Ptr) → among ns a ≡ true → look a g ≡ look a h)
    → Chain g ns p
Chain-same empty same = empty
Chain-same (linked {p} rest ne new here) same =
    linked (Chain-same rest λ a i. same a (ground arith)) ne new (ground (arith, same p))

abbrev is_node : Option Cell → Bool
is_node (some (node _ _)) = true
is_node _ = false

-- No node is at an address that holds none.
pub not-among :
    {h : Heap} {ns : Nodes} {p : Ptr} (a : Ptr)
    → Chain h ns p
    → is_node (look a h) ≡ false
    → among ns a ≡ false
not-among a empty other = refl
not-among a (linked rest ne new here) other = ground (arith, not-among a rest)

-- The last of one or more nodes.
abbrev pub last_node : Ptr × Ptr → Nodes → Ptr × Ptr
last_node n [] = n
last_node n (n' ∷ ns) = last_node n' ns

pub among-last_node : (n : Ptr × Ptr) (ns : Nodes) → among (n ∷ ns) (last_node n ns).0 ≡ true
among-last_node n [] = ground arith
among-last_node n (n' ∷ ns) = ground (arith, among-last_node n' ns)

pub among-append :
    (ns : Nodes) (p d a : Ptr) → among (ns ++ ((p, d) ∷ [])) a ≡ (among ns a || (a == p))
among-append [] p d a = ground arith
among-append (n ∷ ns) p d a = ground (arith, among-append ns p d a)

pub data_of-append :
    (ns : Nodes) (p d : Ptr) → data_of (ns ++ ((p, d) ∷ [])) ≡ data_of ns ++ (d ∷ [])
data_of-append [] p d = refl
data_of-append (n ∷ ns) p d = rw (data_of-append ns p d)

pub length-data_of : (ns : Nodes) → length (data_of ns) ≡ length ns
length-data_of [] = refl
length-data_of (n ∷ ns) = ap suc (length-data_of ns)

abbrev pub is_nil : Nodes → Bool
is_nil [] = true
is_nil (_ ∷ _) = false

pub head-is_nil :
    {h : Heap} {ns : Nodes} {head : Ptr} → Chain h ns head → (head == null) ≡ is_nil ns
head-is_nil empty = refl
head-is_nil (linked rest ne out here) = ground arith

-- The first node.
pub at_head :
    {h : Heap} {p d head : Ptr} {ns : Nodes}
    → Chain h ((p, d) ∷ ns) head
    → (q : Ptr) × (look head h ≡ some (node d q)) × Chain h ns q × (among ns head ≡ false)
at_head (linked {q} rest ne out here) = (q, here, rest, out)

pub at_first : {h : Heap} {p d head : Ptr} {ns : Nodes} → Chain h ((p, d) ∷ ns) head → head ≡ p
at_first (linked rest ne out here) = refl
