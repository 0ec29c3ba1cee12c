-- ===== src/Analysis/Lifetime/Regions.antt =====
-- lifetime/regions.go: the extent of a function and of its basic blocks. A position is a number, 0 for none.
use rustygo.Base.{ℕ, ◌&&◌, Option, none, some, List, [], ◌∷◌, ltb, leb, ◌==◌, if◌then◌else◌, not}
use rustygo.Analysis.Ssa.{Instruction, Block, Function, instructions}

-- The region of a basic block; its parent is the function's region.
pub record BlockRegion : Type 0 where
  pub block : ℕ
  pub start : ℕ
  pub end : ℕ

pub record Region : Type 0 where
  pub name : ℕ
  pub start : ℕ
  pub end : ℕ
  pub children : List BlockRegion

unfoldable pub max_pos : ℕ → List Instruction → ℕ
max_pos m [] = m
max_pos m (i ∷ is) = max_pos (if ltb m i.position then i.position else m) is

-- The first position of a block and the last, of those that are set.
unfoldable pub extent : ℕ → ℕ → List Instruction → ℕ × ℕ
extent start end [] = (start, end)
extent start end (i ∷ is) =
    extent (if (start == 0) && not (i.position == 0) then i.position else start)
      (if not (i.position == 0) then i.position else end) is

abbrev pub block_region : ℕ → ℕ × ℕ → List BlockRegion → List BlockRegion
block_region index (start, end) rest =
    if not (start == 0) && not (end == 0)
    then record { block = index; start = start; end = end } ∷ rest
    else rest

unfoldable pub block_regions : List Block → List BlockRegion
unfolding extent
block_regions [] = []
block_regions (b ∷ bs) = block_region b.index (extent 0 0 b.instrs) (block_regions bs)

unfoldable pub build_regions : Function → Region
unfolding max_pos block_regions instructions
build_regions fn = record {
  name = fn.name;
  start = fn.position;
  end = max_pos 0 (instructions fn.blocks);
  children = block_regions fn.blocks;
}

-- The first child that contains the position; none stands for the function's own region.
unfoldable pub alloc_region : List BlockRegion → ℕ → Option BlockRegion
alloc_region [] pos = none
alloc_region (r ∷ rs) pos = if leb r.start pos && leb pos r.end then some r else alloc_region rs pos
