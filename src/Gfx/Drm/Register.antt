-- ===== src/Gfx/Drm/Register.antt =====
-- drm_register_vfs of kernel/src/gfx/drm/drm.c, on the devices of kernel/src/fs/devfs.c. Memory for the
-- number of the drm and its name is at hand.
use limix.Base.{ℕ, not, if◌then◌else◌, List, ◌∷◌}
use limix.Fs.Devfs.{Root, Devfs, Outcome, done, bind_outcome, Functions, devfs_create, devfs_reload}
use limix.Gfx.Drm.{Display}

-- The one drm is number 0, at `dn`; the name has no 0 of its own, and `behind` is what stands behind it
-- up to the next one.
unfoldable pub drm_register_vfs :
    Functions → ℕ → ℕ → ℕ → ℕ → List ℕ → Root → Display → Devfs → Outcome
unfolding devfs_create devfs_reload
drm_register_vfs code drm_read drm_write dn p behind fresh s d =
    let registered =
      bind_outcome (devfs_create p (b'd' ∷ b'r' ∷ b'm' ∷ b'a' ∷ behind) drm_read drm_write dn d)
        (devfs_reload code fresh) in
    if not s.initialized then done d else registered
