-- ===== src/Gateway/Headers/Laws.antt =====
-- Which values copyHeader copies.
use mathlib.Core.List.{append-nil, append_assoc}
use claviger.Prelude.{String, ◌≡◌, Bool, [], ◌∷◌, ◌++◌, arith, eq_iff, if◌then◌else◌}
use claviger.Text.{canonical}
use claviger.Http.Header
use claviger.Http.Header.Laws.{index-add_values, gathered}
use claviger.Gateway.Headers.{copy_kept, copy_header, hop_by_hop}

index-copy_kept :
    (drop : String → Bool) (src dst : Header.Header) (j : String)
    → Header.index (copy_kept drop src dst) j
      ≡ Header.index dst j ++ (if drop j then [] else gathered src j)
unfolding copy_kept
index-copy_kept drop [] dst j = ground (arith, append-nil (Header.index dst j))
index-copy_kept drop ((k, vals) ∷ src) dst j = ground (
  arith,
  eq_iff (canonical k) j,
  index-copy_kept drop src dst j,
  index-copy_kept drop src (Header.add_values k vals dst) j,
  index-add_values k j vals dst,
  append_assoc (Header.index dst j) vals (gathered src j),
)

-- A name keeps all its values or none: none if it is hop-by-hop, always or by the message's own
-- Connection header, and else the values of every spelling of the name, behind those at hand.
pub index-copy_header :
    (dst src : Header.Header) (j : String)
    → Header.index (copy_header dst src) j
      ≡ Header.index dst j
        ++ (if hop_by_hop (Header.get src "Connection") j then [] else gathered src j)
unfolding copy_header
index-copy_header dst src j = index-copy_kept (hop_by_hop (Header.get src "Connection")) src dst j
