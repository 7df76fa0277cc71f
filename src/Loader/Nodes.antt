-- ===== src/Loader/Nodes.antt =====
-- vm/js/loader.js: the nodes of an IR module, by their kinds. Debug information, which only goes to
-- the allocator, is left out.
use Prim.Native.String.{String}
use u_fork.Prelude.{List, Option, none, Bool, true, false}
use u_fork.Prelude.Int.{ℤ}

-- A field of a node may be missing, and the immediate value of an instruction is a node or a text.
mutual
  pub data Node : Type 0 where
    literal : String → Node
    fixnum_node : ℤ → Node
    ref : Option String → String → Node
    type_node : String → Option ℤ → Node
    pair : Node → Node → Node
    dict : Node → Node → Node → Node
    quad : Node → Field → Field → Field → Node
    instr : String → Imm → Field → Field → Field → Node
    unknown : Node

  pub data Field : Type 0 where
    absent : Field
    present : Node → Field

  pub data Imm : Type 0 where
    no_imm : Imm
    imm_text : String → Imm
    imm_node : Node → Imm

-- `ir.ast`: the definitions, in their order, and the names of the exports.
pub record Ast : Type 0 where
  pub define : List (String × Node)
  pub exports : List String

unfoldable pub is_quad : Node → Bool
is_quad (pair _ _) = true
is_quad (dict _ _ _) = true
is_quad (quad _ _ _ _) = true
is_quad (instr _ _ _ _ _) = true
is_quad (literal _) = false
is_quad (fixnum_node _) = false
is_quad (ref _ _) = false
is_quad (type_node _ _) = false
is_quad unknown = false

-- `node.kind === "ref" && node.module === undefined`
unfoldable pub is_local_ref : Node → Bool
is_local_ref (ref none _) = true
is_local_ref _ = false
