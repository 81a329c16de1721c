-- ===== src/Lib.antt =====
-- Verification library for the ContainerHackathon repository.
--
-- The repository has two programs of its own. PyStager (wfppdl/PyStager) stages a directory to another
-- place: one MPI process, the master, reads a parameters file, scans the source, makes the directories
-- at the destination, divides the work and sends each of the other processes, the slaves, one list of
-- jobs; the slaves copy with rsync, compare hash files if asked to, and send one message for each job.
-- The training programs (wfppdl/training/source) cut images out of netCDF files, divide them into
-- splits, save them, and feed sequences of them to the PredNet network.
--
-- Shared modules:
--   Prelude          names of the libraries, Boolean tests, lists measured by native numbers
--   Prelude/Python   what an expression may raise, and results
--   Prelude/Loops    loops whose body may raise, range, assignment to an item
--   Prelude/Slices   slices with bounds that may be negative
--   Prelude/Int, Text, Dict, Keyed    Python's int, str (as code points) and dict; in Keyed the keys
--                    are texts
--   Files, Files/Edit    the tree of files, the calls of os and open on it; Files/Written is about what
--                    is read after a file has been written, Files/Entry about a new entry of a directory
--
-- PyStager, by file:
--   PyStager/Parameters   the lines of the parameters file, in wfppdl/PyStager/mpi_stager_v2.py; Lines is
--                         about what a line sets
--   PyStager/System       du, os.system and hashlib.md5, as parameters
--   PyStager/Scanner      directory_scanner of wfppdl/PyStager/external_function.py; Order is about
--                         list.sort, Directories about load level 0
--   PyStager/Structure    data_structure_builder; Built is about the directories that it makes
--   PyStager/Distributor  load_distributor; Sharing, Jobs and Balance are about the jobs of each
--                         slave, Assignment about all jobs and messages, Failures about its errors
--   PyStager/Hashing      hash_directory and md5; Digests is about what they write
--   PyStager/Worker       the slave's branch of mpi_stager_v2.py and sync_file; Replies is about its
--                         messages
--   PyStager/Protocol     the sends and receives of both branches as a step relation of one network;
--                         Sums and Invariant count messages, Progress is about deadlock and the number
--                         of steps, Log about what the master has logged at its end,
--                         Log/Delivery about what is seen of it from outside
--   PyStager/Master       the master's branch up to its first message, and the network that it
--                         starts; Directories is about its plan, Built about the destination, Staging
--                         about the whole network
--   PyStager/Main         each process from its beginning, and the network of the whole program; Whole is
--                         about both
--   PyStager/Samples, with Network, Parts and Program, and PyStager/LineSamples    small runs
--
-- The training programs, by file:
--   Training/Numbers      the operations on floating-point numbers, as parameters; images
--   Training/Generator    SequenceGenerator of wfppdl/training/source/data_utils.py; Starts is about
--                         the starts of sequences, Batches about preprocess and the filling of rows,
--                         Valid about the constructor and create_all, Next about next
--   Training/Dataset      wfppdl/training/source/process_netCDF.py; Bounds is about the splits,
--                         Cropping about the images, Saved about the files and their use,
--                         Program about a whole run
--   Training/PredNet      PredNet of wfppdl/training/source/prednet.py: its constructor and the shapes
--                         of its output and states; Shapes is about how these agree,
--                         Initial is about get_initial_state, Checks about the constructor
--   Training/PredNet/Config   get_config, and the constructor called with a configuration; Remade is about
--                         the two together
--   Training/PredNet/Build    build: the convolutions and the shapes they are built for; Kernels is about
--                         the shapes of the weights
--   Training/PredNet/Step the step of PredNet over any operations on tensors; Units and Passes are about
--                         its two loops, Outputs about its output, Total about the whole; Sizes
--                         takes tensors to be their sizes, and Gates, Fitting and Typed are about
--                         the same parts with these
--   Training/Settings     wfppdl/training/source/kitti_settings.py
--   Training/Model        the network of kitti_train.py and kitti_train_horovod.py: PredNet and two fixed
--                         layers; Loss is about its value, Outputs about its shapes
--   Training/Train        wfppdl/training/source/kitti_train.py; Run is about a whole run
--   Training/Distributed  wfppdl/training/source/kitti_train_horovod.py, as one of its processes runs it;
--                         Ranks is about all of them
--   Training/Evaluate     wfppdl/training/source/evaluate_multistep.py: Scores and Figures are what it
--                         writes, Prepared is about what it tests
--   Training/Convert      wfppdl/training/source/keras_utils.py; Layout is about the axes of the weights,
--                         Backend about other backends than Theano
--   Training/Extrema      wfppdl/training/source/minMaxExtractor.py; Printed is about its lines
--   Training/Samples, Training/DatasetSamples, Training/NetSamples, Training/ProgramSamples,
--   Training/EvaluateSamples    small runs
--
-- Nemo and its children: the tables and bar charts of NEMO/report; Strong is strong_scaling.ipynb, Weak is
-- weak_scaling.ipynb, Columns is about the columns of a table.
--
-- The programs meet in their files. process_netCDF.py saves arrays that SequenceGenerator reads; the training
-- programs save the configuration of the network as JSON, and evaluate_multistep.py makes the layer that it
-- tests from such a file.
--
-- How state is modelled. The file system is a value, World, with the working directory of one process;
-- a function that changes files takes a World and gives a World or an exception. A Python exception is
-- a value of Result. In the network, each slave is idle, has its list, or has messages left to send;
-- the master takes any message that has arrived. What a slave finds on the disk when its list arrives
-- is a parameter of the network, so nothing is assumed about how the slaves' copies interleave. In the
-- same way a process of kitti_train_horovod.py is given the files as it finds them at each of its actions.
--
-- Fuel. read_blocks has as many rounds as the file has bytes, and each round takes at least one byte.
-- The while loop of SequenceGenerator has one round for each image and one more: each round moves on
-- by at least one image, which unique_loop_lem in Training/Generator/Starts uses to show that the loop
-- ends in time. All other loops run over lists or are steps of the network.
--
-- Not modelled: logging, printing and the measuring of time; the division of the total size by
-- 1000000; links, permissions and the path component ".."; a du that ends with an error; the decoding
-- of what du prints; numbers and spaces outside ASCII in the parameters file; a negative N_seq; the
-- values of floating-point numbers; MPI, Keras and numpy themselves; what a call of fit_generator does
-- to weights; the size and the drawing of a figure. The fractions in NEMO/report stay as they are
-- written, and what plotly draws of them is left out. Horovod and hickle are copies of other projects'
-- libraries.
pub mod Prelude
pub mod Files
pub mod PyStager
pub mod Training
pub mod Nemo
