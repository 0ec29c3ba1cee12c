-- ===== src/Analysis/Lifetime/Graph.antt =====
-- lifetime/graph.go: the flow graph. A node is its ID: of a value or of an instruction, by address.
pub mod Nodes
use rustygo.Base.{ℕ, Bool, true, false, List, [], ◌∷◌, ◌++◌, ◌==◌, if◌then◌else◌}
use rustygo.Analysis.Ssa.{Ref}

pub data NodeId : Type 0 where
  of_value of_instr : Ref → NodeId

unfoldable pub same_node : NodeId → NodeId → Bool
same_node (of_value a) (of_value b) = a == b
same_node (of_value a) (of_instr b) = false
same_node (of_instr a) (of_value b) = false
same_node (of_instr a) (of_instr b) = a == b

pub data EdgeType : Type 0 where
  stored field_flow field_of field_addr_flow field_addr_of index_addr_flow index_addr_of sliced :
      EdgeType
  change_interface_flow converted type_asserted phi_flow selected closure_bind make_interface_flow :
      EdgeType
  make_interface_action sent send_action returned go_func go_arg defer_func defer_arg call_func
        call_arg :
      EdgeType
  unop_flow : EdgeType

pub record GraphEdge : Type 0 where
  pub from : NodeId
  pub to : NodeId
  pub type : EdgeType

pub record LifetimeGraph : Type 0 where
  pub nodes : List NodeId
  pub edges : List GraphEdge

unfoldable pub new_lifetime_graph : LifetimeGraph
new_lifetime_graph = record { nodes = []; edges = [] }

unfoldable pub has_node : NodeId → List NodeId → Bool
unfolding same_node
has_node n [] = false
has_node n (m ∷ ms) = if same_node n m then true else has_node n ms

unfoldable pub get_or_create_node : LifetimeGraph → NodeId → LifetimeGraph
unfolding has_node
get_or_create_node g n = if has_node n g.nodes then g else record g { nodes = g.nodes ++ (n ∷ []) }

unfoldable pub add_edge : LifetimeGraph → GraphEdge → LifetimeGraph
add_edge g e = record g { edges = g.edges ++ (e ∷ []) }

-- `g.Adjacency[n]`: the edges from the node, in the order in which they were added.
unfoldable pub adjacency : List GraphEdge → NodeId → List GraphEdge
unfolding same_node
adjacency [] n = []
adjacency (e ∷ es) n = let rest = adjacency es n in if same_node e.from n then e ∷ rest else rest
