-- ===== src/Enumerate/Walks.antt =====
-- What a walk over the devices of devinfo keeps.
use libudev_devd.Common.{
  Bool, true, false, Option, none, some, if◌then◌else◌, Status, ok, and_then-keeps,
}
use libudev_devd.Enumerate.{
  DevinfoDev, DevTree, DevForest, node, leaves, tree, scandev_sub, foreach_child, scandev_recursive,
}

-- A walk over devices keeps what its callback keeps.
module _ {S : Type 0} (P : S → Type 0) (cb : DevinfoDev → S → S × Status)
    (keeps : (dev : DevinfoDev) (s : S) → P s → P (cb dev s).0) where
  mutual
    unfolding scandev_sub foreach_child

    sub-keeps : (t : DevTree) (s : S) → P s → P (scandev_sub cb t s).0
    sub-keeps (node dev children) s h =
        and_then-keeps P (cb dev s) _ (keeps dev s h) (children-keeps children)

    children-keeps : (f : DevForest) (s : S) → P s → P (foreach_child cb f s).0
    children-keeps leaves s h = h
    children-keeps (tree t rest) s h =
        and_then-keeps P (scandev_sub cb t s) _ (sub-keeps t s h) (children-keeps rest)

pub scandev-keeps :
    {S : Type 0} (P : S → Type 0) (cb : DevinfoDev → S → S × Status)
    → ((dev : DevinfoDev) (s : S) → P s → P (cb dev s).0)
    → (roots : Option DevForest) (s : S) → P s
    → P (scandev_recursive cb roots s).0
unfolding scandev_recursive
scandev-keeps P cb keeps none s h = h
scandev-keeps P cb keeps (some roots) s h = children-keeps P cb keeps roots s h

-- The walk is made in one build of the library and left out in the other.
pub either-keeps :
    {S : Type 0} (P : S → Type 0) (b : Bool) (made : S × Status) (s : S)
    → P made.0
    → P s
    → P (if b then made else (s, ok)).0
either-keeps P true made s h k = h
either-keeps P false made s h k = k
