-- ===== src/Training/PredNet/Checks.antt =====
-- What the checks of the constructor of `PredNet` of wfppdl/training/source/prednet.py ensure.
use container_hackathon.Prelude.{ℕ, ◌+◌, ◌≡◌, arith, Bool, Option, List, length, ok}
use container_hackathon.Prelude.Text.{Text}
use container_hackathon.Training.PredNet.{PredNet, Options, new_prednet}

-- The lists of sizes have an entry for each layer, that of the targets for each layer but the first.
unfoldable pub IsSized : PredNet → Type 0
IsSized net =
    (length net.stack_sizes ≡ net.nb_layers)
    × (length net.r_stack_sizes ≡ net.nb_layers)
    × (length net.a_filt_sizes + 1 ≡ net.nb_layers)
    × (length net.ahat_filt_sizes ≡ net.nb_layers)
    × (length net.r_filt_sizes ≡ net.nb_layers)

-- What the constructor has made has lists of the right lengths, and so at least one layer.
pub new_prednet-IsSized :
    (known : Text → Bool) (stacks r_stacks a_filts ahat_filts r_filts : List ℕ) (options : Options)
    (mode : Text) (start : Option ℕ) (data_format : Text) (net : PredNet)
    → new_prednet known stacks r_stacks a_filts ahat_filts r_filts options mode start data_format
      ≡ ok net
    → IsSized net
unfolding new_prednet IsSized
new_prednet-IsSized known stacks r_stacks a_filts ahat_filts r_filts options mode start data_format
      net h =
    ground arith
