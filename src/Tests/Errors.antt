-- ===== src/Tests/Errors.antt =====
-- src/error.c at concrete codes.
use cache_noise_visualizer.Base.{◌≡◌, refl, inl, inr}
use cache_noise_visualizer.Errors.{
  entry, error_map_table, decode_error, error_fd_cycle, error_hdf5_error,
  error_not_supported_output,
}
use cache_noise_visualizer.Errors.Decode.{decode_error-Has}

-- ERROR_HDF5_ERROR and ERROR_NOT_SUPPORTED_OUTPUT have the codes of two other errors.
hdf5_message :
    decode_error error_hdf5_error ≡ "retrieving the CPU core on which the program currently runs on"
unfolding decode_error
hdf5_message = refl

output_message :
    decode_error error_not_supported_output
    ≡ "setting the scheduler policy (ERROR_SET_SCHEDULER_POLICY)"
unfolding decode_error
output_message = refl

decode_error-Has_example :
    decode_error error_fd_cycle ≡ "opening a file descriptor to cycle event (ERROR_FD_CYCLE)"
unfolding error_map_table
decode_error-Has_example =
    decode_error-Has
      (entry error_fd_cycle "opening a file descriptor to cycle event (ERROR_FD_CYCLE)")
      (inr (inr (inl refl)))
