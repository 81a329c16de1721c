-- ===== src/Training/Settings.antt =====
-- wfppdl/training/source/kitti_settings.py.
use container_hackathon.Prelude.Text.{Text, codes}

-- Where the processed data lies.
abbrev pub data_dir : Text
data_dir = codes "/mnt/splits"

-- Where model weights and configuration are saved.
abbrev pub weights_dir : Text
weights_dir = codes "./model_data_keras2/"

-- Where plots and the evaluation file are saved.
abbrev pub results_save_dir : Text
results_save_dir = codes "./kitti_results"
