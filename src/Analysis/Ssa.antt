-- ===== src/Analysis/Ssa.antt =====
-- What the analyses read of a function in the form of golang.org/x/tools/go/ssa: its instructions by kind, with
-- the operands. A value or an instruction is its address, a number; an instruction that defines a value is
-- that value. A name is a number too.
use rustygo.Base.{ℕ, Bool, Option, none, some, List, [], ◌∷◌, ◌++◌, ◌==◌, if◌then◌else◌}

abbrev pub Ref : Type 0
Ref = ℕ

-- A call with `Call.Value`, `Call.Args`, and `StaticCallee()` by name, with whether its `Pkg` is set.
pub record CallCommon : Type 0 where
  pub value : Ref
  pub args : List Ref
  -- `Value` is the built-in `len` or `cap`
  pub len_or_cap : Bool
  pub static_callee : Option (ℕ × Bool)

-- `pointers` is `HasPointers` of the value's type. `load` is `UnOp` with `*`, `receive` with `<-`.
-- Every kind that no analysis names is `other`.
pub data Op : Type 0 where
  alloc make_slice make_map make_chan : Op
  store : (addr val : Ref) → Op
  field field_addr index_addr change_interface convert type_assert make_interface : Ref → Op
  slice : (pointers : Bool) → Ref → Op
  other : Op
  phi select make_closure ret : List Ref → Op
  send : (chan x : Ref) → Op
  go_call defer_call call : CallCommon → Op
  load : (pointers : Bool) → Ref → Op
  receive unop : Ref → Op

pub record Instruction : Type 0 where
  pub self : Ref
  pub position : ℕ
  pub op : Op
  -- it is an `ssa.Value`
  pub is_value : Bool
  -- `Operands(nil)`, those that are not nil
  pub operands : List Ref

pub record Block : Type 0 where
  pub index : ℕ
  pub instrs : List Instruction

pub record Function : Type 0 where
  pub name : ℕ
  pub position : ℕ
  pub has_pkg : Bool
  pub params : List Ref
  pub blocks : List Block

-- `for _, block := range fn.Blocks { for _, instr := range block.Instrs`
unfoldable pub instructions : List Block → List Instruction
instructions [] = []
instructions (b ∷ bs) = b.instrs ++ instructions bs

-- An instruction by its address.
unfoldable pub op_of : List Instruction → Ref → Option Op
op_of [] r = none
op_of (i ∷ is) r = if i.self == r then some i.op else op_of is r
