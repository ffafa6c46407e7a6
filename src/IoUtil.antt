-- ===== src/IoUtil.antt =====
-- ioutil.c: the disk utilization of each system device, which the iostat reader writes and the
-- "usage" files read; devices that a scan does not touch are dropped.
pub mod Sweep
use cmogstored.Prelude.{
  ℕ, Bytes, List, [], ◌∷◌, Bool, true, false, Option, none, some, ◌==◌, if◌then◌else◌, codes,
}

-- struct ioutil
pub record IoUtil : Type 0 where
  pub st_dev : ℕ
  pub in_use : Bool
  pub util : Bytes

-- `dev_iou`, by `st_dev`
unfoldable pub hash_lookup : ℕ → List IoUtil → Option IoUtil
hash_lookup dev [] = none
hash_lookup dev (iou ∷ t) =
    let rest = hash_lookup dev t in if iou.st_dev == dev then some iou else rest

-- `mog_iou_cleanup_begin`
unfoldable pub cleanup_begin : List IoUtil → List IoUtil
cleanup_begin [] = []
cleanup_begin (iou ∷ t) = record iou { in_use = false } ∷ cleanup_begin t

-- `mog_iou_cleanup_finish`: the free list holds the entries that are not in use
unfoldable pub cleanup_finish : List IoUtil → List IoUtil
cleanup_finish [] = []
cleanup_finish (iou ∷ t) = let rest = cleanup_finish t in if iou.in_use then iou ∷ rest else rest

-- `iou_vivify`, then a change to the entry's text, if any
unfoldable pub iou_vivify : ℕ → Option Bytes → List IoUtil → List IoUtil
iou_vivify dev text [] =
    record { st_dev = dev; in_use = true; util = elim text [ none ↦ codes "-" | some u ↦ u ] } ∷ []
iou_vivify dev text (iou ∷ t) =
    let rest = iou_vivify dev text t in
    if iou.st_dev == dev
    then record iou { in_use = true; util = elim text [ none ↦ iou.util | some u ↦ u ] } ∷ t
    else iou ∷ rest

unfoldable pub iou_write : ℕ → Bytes → List IoUtil → List IoUtil
iou_write dev buf t = iou_vivify dev (some buf) t

unfoldable pub iou_active : ℕ → List IoUtil → List IoUtil
iou_active dev t = iou_vivify dev none t

abbrev util_of : Option IoUtil → Bytes
util_of none = []
util_of (some iou) = iou.util

-- the text that is copied out, and the table
unfoldable pub iou_read : ℕ → List IoUtil → Bytes × List IoUtil
iou_read dev t = let t' = iou_vivify dev none t in (util_of (hash_lookup dev t'), t')
