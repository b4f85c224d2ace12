-- ===== src/Hook/Descriptors/Flags.antt =====
-- The flags of a socket as its user sees them, and as they are.
use mnser.Common.{
  ℕ, Bool, true, false, ◌==◌, ==_iff, ◌≡◌, refl, ap, ◌∙◌, arith, Bool-cases, inl, inr, Option, none,
  some,
}
use mnser.FdManager.{FdManager, get_ctx}
use mnser.Hook.Descriptors.{
  FileFlags, Descriptors, checked, treated, set_user_nonblock, fcntl_setfl, fcntl_getfl,
  ioctl_fionbio,
}

checked-set :
    (m : FdManager) (a : ℕ) (b : Bool) (o : Option ℕ)
    → checked m.ctx o ≡ some a
    → checked (set_user_nonblock m a b).ctx o ≡ some a
checked-set m a b none h = cc
checked-set m a b (some c) h = elim (Bool-cases (c == a)) [
  | inl same ↦ let s = (==_iff c a).0 same in rw (same, s) (rw s at h)
  | inr other ↦ rw other h
]

same_pointer :
    (m : FdManager) (fd a : ℕ) (b : Bool)
    → (get_ctx (set_user_nonblock m a b) (some fd) false 0 none).0
      ≡ (get_ctx m (some fd) false 0 none).0
unfolding get_ctx
same_pointer m fd a b = ground arith

treated-set :
    (m : FdManager) (fd a : ℕ) (b : Bool)
    → treated m fd ≡ some a
    → treated (set_user_nonblock m a b) fd ≡ some a
treated-set m fd a b h =
    ap (checked (set_user_nonblock m a b).ctx) (same_pointer m fd a b)
    ∙ checked-set m a b (get_ctx m (some fd) false 0 none).0 h

module _ (D : Descriptors) where
  getfl-set :
      (m : FdManager) (fd a : ℕ) (b : Bool) (o : D.Os)
      → treated m fd ≡ some a
      → fcntl_getfl D (set_user_nonblock m a b) fd o ≡ record (D.flags o) { nonblock = b }
  unfolding fcntl_getfl
  getfl-set m fd a b o h =
      let self : (a == a) ≡ true = (==_iff a a).1 refl in
      rw (treated-set m fd a b h, fcntl_getfl, self) refl

  -- On an open socket F_GETFL gives back the flags that F_SETFL was given, O_NONBLOCK included and
  -- with the access mode and flags of creation that the descriptor had, which F_SETFL passes by;
  -- while the descriptor itself stays as non-blocking as the hooks have made it.
  pub fcntl_lem :
      (m : FdManager) (fd a : ℕ) (arg : FileFlags) (o : D.Os)
      → treated m fd ≡ some a
      → let r = fcntl_setfl D m fd arg o in
        (fcntl_getfl D r.0 fd r.1 ≡ record arg { fixed = (D.flags o).fixed })
        × (D.flags r.1
            ≡ record arg { nonblock = (m.ctx a).sys_nonblock; fixed = (D.flags o).fixed })
  unfolding fcntl_setfl
  fcntl_lem m fd a arg o h =
      let set = D.flags-set_flags (record arg { nonblock = (m.ctx a).sys_nonblock }) o in
      rw (h, fcntl_setfl)
        (
          getfl-set m fd a arg.nonblock _ h
              ∙ ap (λ (f : FileFlags). record f { nonblock = arg.nonblock }) set,
          set,
        )

  -- FIONBIO of an open socket sets O_NONBLOCK of the descriptor itself: after the user has set it
  -- to 0, F_GETFL shows a blocking descriptor, and it does block, whatever the hooks had made it.
  pub ioctl_blocks :
      (m : FdManager) (fd a : ℕ) (b : Bool) (o : D.Os)
      → treated m fd ≡ some a
      → let r = ioctl_fionbio D m fd b o in
        ((fcntl_getfl D r.0 fd r.1).nonblock ≡ b)
        × ((D.flags r.1).nonblock ≡ b)
        × ((r.0.ctx a).sys_nonblock ≡ (m.ctx a).sys_nonblock)
  unfolding ioctl_fionbio
  ioctl_blocks m fd a b o h =
      let self : (a == a) ≡ true = (==_iff a a).1 refl in
      rw (h, ioctl_fionbio)
        (
          ap (λ (f : FileFlags). f.nonblock) (getfl-set m fd a b (D.set_nonblock b o) h),
          ap (λ (f : FileFlags). f.nonblock) (D.flags-set_nonblock b o),
          rw self refl,
        )
