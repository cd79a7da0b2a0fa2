-- ===== src/Examples/Memories.antt =====
-- The statements on the kernel's memory, on the sample state.
use xeros_kernel.Base.{ℕ, ap, subst, Option, none, some, ◌≡◌, refl, [], ◌∷◌, arith, inl}
use xeros_kernel.Base.Int.{pos}
use xeros_kernel.Kernel.Config.{ok_code}
use xeros_kernel.Kernel.Cmd.{done, Returns}
use xeros_kernel.Memory.{heap_fuel, align_to_paragraph, kmalloc, verify_sysptr}
use xeros_kernel.Memory.Fit.{Divided, Placed, kmalloc_lem}
use xeros_kernel.Memory.Sysptr.{verify_sysptr_lem}
use xeros_kernel.Examples.{sample}

abbrev the_block : Option ℕ → ℕ
the_block none = 0
the_block (some b) = b

third_only : (b : ℕ) → some 24576 ≡ some b → Placed sample.header b 128
third_only b e =
    subst (λ a. Placed sample.header a 128) (ap the_block e) (omega arith, omega arith, inl refl)

-- The third block of the list is the first that is large enough.
kmalloc_lem_example :
    Returns (λ p k'. (p ≡ 24592) × Divided 24576 128 sample k') (kmalloc 100 sample)
unfolding align_to_paragraph heap_fuel
kmalloc_lem_example =
    ((kmalloc_lem 100 (16384 ∷ 20480 ∷ 24576 ∷ []) sample (omega arith) (omega arith)
          (refl, omega arith, (refl, omega arith, (refl, omega arith, refl))) (omega arith)
          third_only).1
        24576 refl).0
      (omega arith)

verify_sysptr_lem_example : verify_sysptr 131072 (pos 100) sample ≡ done ok_code sample
verify_sysptr_lem_example = verify_sysptr_lem sample 131072 99 (omega arith)
