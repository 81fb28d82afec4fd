-- ===== src/Tests/Names.antt =====
-- Paths and permissions.
use kazoo.Base.{[], ◌∷◌, ◌++◌, ◌≡◌, ◌≢◌, refl, ok, false, ◌>>=◌}
use kazoo.Python.Text.{codes}
use kazoo.Paths.{normpath, norm_root, prefix_root, unchroot, slash}
use kazoo.Paths.Names.{names_of}
use kazoo.Paths.Normal.{absolute}
use kazoo.Paths.Chroot.{unchroot-prefix_root, prefix_root_lem}

-- Doubled and trailing slashes go.
normpath_run : normpath (codes "//a//b/") false ≡ ok (codes "/a/b")
unfolding normpath kazoo.Python.Text.split kazoo.Python.Text.starts_with_char
    kazoo.Python.Text.join_with
normpath_run = refl

app-ne-root : codes "/app" ≢ slash ∷ []
app-ne-root h = cc

unchroot-prefix_root_example :
    norm_root (codes "a//b/") ≡ ok (unchroot (codes "/app") (codes "/app/a/b"))
unfolding norm_root prefix_root kazoo.Python.Text.split kazoo.Python.Text.starts_with_char
    kazoo.Python.Text.ends_with_char kazoo.Python.Text.join_with kazoo.Python.Text.lstrip
unchroot-prefix_root_example =
    unchroot-prefix_root (codes "app/") (codes "a//b/") (codes "/app") (codes "/app/a/b") refl
      app-ne-root refl

prefix_root_lem_example : prefix_root (codes "/app") (codes "a/../b") false ≡ (
    names_of (codes "/app") >>= λ rs. names_of (codes "a/../b") >>= λ ps. ok (absolute (rs ++ ps)))
prefix_root_lem_example = prefix_root_lem (codes "/app") (codes "a/../b")
