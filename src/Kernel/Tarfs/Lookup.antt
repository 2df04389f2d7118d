-- ===== src/Kernel/Tarfs/Lookup.antt =====
-- The tar file system as `vn_open` uses it.
use n00b_os.Prelude.{
  ℕ, ◌+◌, ◌<◌, ◌≤◌, ◌≡◌, refl, ap, ◌∙◌, Option, none, some, List, map, arith, length, pos,
  minus_one,
}
use n00b_os.Libk.Memory.{Memory}
use n00b_os.Libk.Allocator.{Allocator}
use n00b_os.Libk.Strings.Laws.{IsString}
use n00b_os.Kernel.Vfs.Open.{VnodeOps}
use n00b_os.Kernel.Vfs.Path.{looked_up, SameOutside, Looks}
use n00b_os.Kernel.Tarfs.{v_reg}
use n00b_os.Kernel.Tarfs.Nodes.{TarFs, node_lookup_at}
use n00b_os.Kernel.Tarfs.Parent.{Finds}
use n00b_os.Kernel.Tarfs.Directory.{
  find_name, IsDir, NamesApart, Named-frame, node_lookup_at-find_name,
}

module _ (A : Allocator) (fuel : ℕ) (fs : TarFs A) where
  abbrev pub with_memory : Memory → TarFs A
  with_memory m = record fs { memory = m }

  -- `node_ops`, on the nodes of `fs`
  abbrev pub node_ops : VnodeOps
  node_ops = record {
    lookup = λ m node nm. node_lookup_at A fuel (with_memory m) node nm node;
    open_node = λ node. (pos 0, node);
  }

abbrev pub find_in : Option (List (List ℕ × ℕ)) → List ℕ → Option ℕ
find_in none cs = none
find_in (some ns) cs = find_name cs ns

looked_up_lem :
    (node : ℕ) (found : Option ℕ)
    → (elim found [ some vnode ↦ (pos 0, vnode) | none ↦ (minus_one, node) ]) ≡ looked_up node found
looked_up_lem node none = refl
looked_up_lem node (some vnode) = refl

module _ (A : Allocator) (fuel : ℕ) (fs : TarFs A) (names : ℕ → Option (List (List ℕ × ℕ)))
    (p n : ℕ) where
  -- In the memory `m`, the node is the directory of these names, none of which lies in the `n + 1` bytes
  -- from `p` on; or it is a file.
  abbrev pub NodeIs : Memory → ℕ → Option (List (List ℕ × ℕ)) → Type 0
  NodeIs m node none = (fs.vnodes node).type ≡ v_reg
  NodeIs m node (some ns) =
      (d : IsDir A (with_memory A fuel fs m) node ns) × NamesApart p (n + 1) (map fs.entries d.at)
        ns
      × (length ns < fuel)

  abbrev pub Tree : Memory → Type 0
  Tree m = (node : ℕ) → NodeIs m node (names node)

  lookup-NodeIs :
      (m : Memory) (node nm : ℕ) (cs : List ℕ) (ns : Option (List (List ℕ × ℕ)))
      → NodeIs m node ns
      → IsString m nm cs
      → length cs < fuel
      → node_lookup_at A fuel (with_memory A fuel fs m) node nm node
        ≡ some (looked_up node (find_in ns cs))
  unfolding node_lookup_at
  lookup-NodeIs m node nm cs none is h lt = ground (arith, is)
  lookup-NodeIs m node nm cs (some ns) is h lt =
      node_lookup_at-find_name A fuel (with_memory A fuel fs m) node nm node cs ns is.0 h lt is.2
      ∙ ap some (looked_up_lem node (find_name cs ns))

  frame :
      (m m' : Memory) (node : ℕ) (ns : Option (List (List ℕ × ℕ)))
      → NodeIs m node ns
      → SameOutside p (n + 1) m m'
      → NodeIs m' node ns
  frame m m' node none is same = is
  frame m m' node (some ns) is same = (
    record {
      at = is.0.at;
      is_dir = is.0.is_dir;
      ring = is.0.ring;
      named =
          Named-frame m m' p n (map fs.entries is.0.at) ns (λ a out. same a (ground (arith, out)))
            is.1 is.0.named;
    },
    is.1,
    is.2,
  )

  -- Where every node is a file, or a directory of the names that `names` gives it, fewer than the fuel, and
  -- no name lies in the block of `n + 1` bytes at `p`: `node_lookup` looks names up in that tree as
  -- `vn_open` asks for, and goes on doing so when that block is written.
  pub node_ops-Looks :
      Looks (node_ops A fuel fs) Tree (λ node cs. find_in (names node) cs) fuel p (n + 1)
  node_ops-Looks = record {
    lookup-find =
        λ m node nm cs tree h lt. lookup-NodeIs m node nm cs (names node) (tree node) h lt;
    stay = λ m m' tree same node. frame m m' node (names node) (tree node) same;
  }

module _ (A : Allocator) (limit : ℕ) (fs : TarFs A) (names : ℕ → Option (List (List ℕ × ℕ)))
    (p n : ℕ) where
  more_fuel :
      (fuel : ℕ) (m : Memory) (node : ℕ) (ns : Option (List (List ℕ × ℕ)))
      → limit < fuel
      → NodeIs A limit fs names p n m node ns
      → NodeIs A fuel fs names p n m node ns
  more_fuel fuel m node none lt is = is
  more_fuel fuel m node (some ns) lt is = (is.0, is.1, omega (arith, is.2))

  -- In such a tree, `node_lookup` finds what `lookup_parent` asks for.
  pub Tree-Finds :
      n + 1 ≤ limit
      → Finds A fs (λ node cs. find_in (names node) cs) (Tree A limit fs names p n) limit p (n + 1)
  Tree-Finds le = record {
    node_lookup-find = λ fuel m node cs tree h short lt.
        lookup-NodeIs A fuel fs names p n m node p cs (names node)
          (more_fuel fuel m node (names node) lt (tree node)) h (omega arith);
    stay =
        λ m m' tree same node. frame A limit fs names p n m m' node (names node) (tree node) same;
  }
