-- ===== src/Page/Forest/Remove.antt =====
-- `Delete` on a forest, while no statement fails: the children go up one level, with their subtrees.
use talyvor_docs.Page.{Tables}
