-- ===== src/Lib.antt =====
-- OSCD: a simulated file system in one disk image (oscdfs), a virtual character device for the Linux
-- kernel (oscddrv) and a shell (oscdsh). The three share no state. This library models the core of
-- each in explicit state.
--
-- Common: notation, case lemmas, lists and binary digits over the native numbers, C's int, C strings
-- (Common/Text), loops that look for the first index with a property (Common/Search), and in
-- Common/Exec the result of a C function beside the state that it leaves: a value, the return value
-- -1, the end of the process, or an access outside an array.
--
-- Fs: oscdfs. Fs/State is the process with its image (oscdfs/src/state.c, oscdfs/src/disk.c); what
-- the system answers to each transfer is a parameter, the record Device, which may fail any read or
-- write. Fs/Bytes stores 32-bit words in blocks of 4096 bytes. On these stand
--   Fs/Layout, Fs/Disk   the constants, and read_block and write_block;
--   Fs/Super             oscdfs/src/super.c: the superblock (block 0), the group descriptor (block 1);
--   Fs/Bitmap            oscdfs/src/bitmap.c: the bitmaps (blocks 2 and 3), over Fs/Super;
--   Fs/Inode             oscdfs/src/inode.c: the inode table (blocks 4 to 7), read and written;
--   Fs/Blocks            oscdfs/src/inode.c: inode_get_block, and in Fs/Blocks/Release
--                        inode_free_blocks, over Fs/Bitmap and Fs/Inode;
--   Fs/Access            oscdfs/src/permission.c, and oscdfs_chmod and oscdfs_chown of
--                        oscdfs/src/file.c behind the resolution of the path;
--   Fs/Files             the descriptors of oscdfs/src/file.c, and its loops of read and write;
--   Fs/Dir, Fs/Paths     oscdfs/src/dir.c: directories, and the walk of a path;
--   Fs/Users             oscdfs/src/user.c: the user table (block 8) and login;
--   Fs/Calls             the calls of oscdfs/src/file.c that take a path;
--   Fs/InodeData         the transfers by inode number of oscdfs/src/file.c;
--   Fs/Fuse              oscdfs/src/fuse.c: the callbacks, with their error numbers in Fs/Answer;
--   Fs/Format            the metadata that oscdfs/src/mkfs.c writes first, and in Fs/Format/Image
--                        the directories and users that follow;
--   Fs/Commands          oscdfs/src/builtin.c and oscdfs/src/exec.c: the commands of the interactive
--                        mode, over Fs/Calls, Fs/Files, Fs/Paths and Fs/Users;
--   Fs/Main              oscdfs/src/main.c: the options, the arguments for FUSE, the command loop.
-- Functions and fields have the names of the source. The three branches of inode_get_block share
-- root_block, child_block and leaf_block, and the three loops of inode_free_blocks are free_tree at
-- the depths 0, 1 and 2.
--
-- Driver: oscddrv/src/main.c. Each handler runs under the one mutex, so it is one step on the globals
-- (Driver) and the data of the open file (Private). Driver/Lifecycle has oscddrv_init and oscddrv_exit.
--
-- Shell: oscdsh. Shell/Alias is oscdsh/src/alias.c, Shell/Jobs is oscdsh/src/jobs.c and
-- Shell/History is oscdsh/src/history.c; the used part of each array is a list. Shell/Logic is the
-- part of oscdsh/src/exec.c that splits a line at `&&` and `||` and runs the segments; what runs
-- one segment is a parameter with a state of its own. Shell/Command is parse_single_cmd and
-- split_by_pipe of the same file, and Shell/Plan is execute_command, and execute_pipeline_or_single
-- for the segments of a sequence, up to where they start processes, as a value that says what is
-- started. Shell/Expand is expand_env of oscdsh/src/main.c, and Shell/Session the main loop of that
-- file, from what readline returns to the line that execute_command gets, which is a parameter
-- there. Shell/Startup has the variables that are set before that loop. Shell/Builtins is
-- oscdsh/src/builtin.c with execute_builtin of oscdsh/src/exec.c; the commands change the tables,
-- the environment and the working directory of a Process, and chdir, access and the monitor are
-- parameters. Shell/Completion is oscdsh/src/completion.c, whose static variables are the record
-- Generator. Shell/Prompt is the directory in the prompt of oscdsh/src/prompt.c. Shell/Monitor is
-- oscdsh/src/monitor.c: in Shell/Monitor/Scan the lines of a file and sscanf, in
-- Shell/Monitor/Processes the list of processes, and in Shell/Monitor/Tables the lines that the
-- other subcommands show. The files of /proc and qsort are parameters.
--
-- Bounds: the loops of the source over arrays and bitmaps are structural recursion on the number of
-- rounds that the source allows. The two loops of Fs/Files get one round more than there are bytes to
-- move, which is enough since a round moves at least one byte; `unfinished` would say that they ran
-- out.
-- The loops over the blocks of a directory get 2049 rounds, one more than the image has blocks. The
-- way up to the root gets 129, since the array of names of the source has 128 places.
--
-- expand_env gets one round more than the line has bytes, since each round takes a byte at least, and
-- the expansion of aliases the ten rounds of the source.
--
-- Not modelled: what the prompt and the monitor of oscdsh print besides the data, the monitor's
-- overview, power and save, the signal handlers' registration, oscdmon and oscdk, which are input
-- and output; processes, pipes and signals other than the bookkeeping of jobs and the flag of the
-- main loop. A failure of malloc is not modelled, nor messages on the terminal. Short transfers are
-- retried by the source and are part of one transfer here; a write that fails has written a part of
-- its block, which is a parameter. Memory that the source reads before it is set, and a write
-- behind an array, make the result `undefined`.
pub mod Common
pub mod Fs
pub mod Driver
pub mod Shell
