-- ===== src/Tests/Races.antt =====
-- Two goroutines that allocate from one chunk at once.
use rustygo.Base.{◌+◌, ◌≡◌, refl, some, [], ◌∷◌, pos, arith}
use rustygo.Base.Every.{All}
use rustygo.Memory.{Chunk}
use rustygo.Chunk.{Span, try_alloc}
use rustygo.Chunk.Race.{Call, plain, attempt, Race, Reach, start, next, enter, load, win, lose}
use rustygo.Chunk.Race.Linear.{Linear, Reach-Linear}
use rustygo.Chunk.Race.Apart.{Between, Separate, spans, race_disjoint}
use rustygo.Tests.Data.{first_chunk, first_chunk-IsMapped}

abbrev moved : Chunk
moved = record first_chunk { off = first_chunk.off + 8 }

abbrev granted : Span
granted = record { lo = first_chunk.off; hi = first_chunk.off + 8 }

abbrev call : Call
call = plain (pos 8)

-- Both read the offset; the second wins, and the first loses and starts over.
interleaved : (s : Race) × Reach first_chunk s × (s.results ≡ (call, some granted) ∷ [])
unfolding attempt try_alloc native.Mathlib.Decide.ℕ_discrete
interleaved = (
  _,
  next
      (next
        (next
          (next
            (next (next start (enter 0 call refl (omega arith))) (enter 1 call refl (omega arith)))
            (load 0 call refl))
          (load 1 call refl))
        (win 1 call first_chunk.off granted moved refl refl refl))
      (lose 0 call first_chunk.off refl (λ h. omega arith)),
  refl,
)

Reach-Linear_example : Linear first_chunk interleaved.0.results interleaved.0.chunk
Reach-Linear_example = Reach-Linear first_chunk interleaved.0 first_chunk-IsMapped interleaved.1

race_disjoint_example :
    All (Between first_chunk.off first_chunk.size) (spans interleaved.0.results)
    × Separate (spans interleaved.0.results)
race_disjoint_example = race_disjoint first_chunk interleaved.0 first_chunk-IsMapped interleaved.1
